-- ===== src/Client/Errors.antt =====
-- What `request` of frontend/src/api/client.js throws, and when.
use pulsepoll_hcl_guvi.Prelude.{
  ℕ, ◌≡◌, refl, sym, ap, subst, Bool, true, false, String, eq_iff, ◌⊎◌, inl, inr, arith, some,
}
use pulsepoll_hcl_guvi.Text.{truthy}
use pulsepoll_hcl_guvi.Json.{Json, str, obj, Fields, is_truthy, lookup, to_string, decimal-truthy}
use pulsepoll_hcl_guvi.Client.{
  Response, Fetched, unreachable, answered, ApiError, thrown, is_ok, read_body, envelope, friendly,
  http_error, settle,
}

-- The code and the message of an envelope are never falsy.
envelope_truthy :
    (body : Json) → (is_truthy (envelope body).0 ≡ true) × (is_truthy (envelope body).1 ≡ true)
unfolding envelope
envelope_truthy body = ground arith

friendly_truthy :
    (status : ℕ) (code message : Json)
    → is_truthy code ≡ true
    → is_truthy message ≡ true
    → (is_truthy (friendly status (code, message)).0 ≡ true)
      × (is_truthy (friendly status (code, message)).1 ≡ true)
unfolding friendly
friendly_truthy status code message hc hm = ground arith

-- whether a value is an array
abbrev pub is_array : Json → Bool
is_array (Json.arr _) = true
is_array _ = false

-- The text of a truthy value is not empty, unless the value is an array.
text_truthy : (v : Json) → is_truthy v ≡ true → is_array v ≡ false → truthy (to_string v) ≡ true
unfolding to_string
text_truthy Json.null t a = cc
text_truthy (Json.bool true) t a = refl
text_truthy (Json.bool false) t a = cc
text_truthy (Json.num n) t a = decimal-truthy n
text_truthy (str s) t a = t
text_truthy (Json.arr xs) t a = cc
text_truthy (obj fs) t a = refl

answered-thrown :
    (r : Response) (e : ApiError)
    → settle (answered r) ≡ thrown e
    → (is_ok r.status ≡ false) × (e ≡ http_error r.status (read_body r))
unfolding settle
answered-thrown r e h = ground arith

-- the value that becomes the message of the error for a response
abbrev pub message_value : Response → Json
message_value r = (friendly r.status (envelope (read_body r))).1

abbrev IsFor : Response → ApiError → Type 0
IsFor r e =
    (is_ok r.status ≡ false)
    × (e.status ≡ r.status)
    × (e.message ≡ to_string (message_value r))
    × (is_truthy (message_value r) ≡ true)
    × (is_array (message_value r) ≡ false → truthy e.message ≡ true)

http_error-IsFor :
    (r : Response)
    → is_ok r.status ≡ false
    → (is_truthy (http_error r.status (read_body r)).code ≡ true)
      × IsFor r (http_error r.status (read_body r))
unfolding http_error
http_error-IsFor r failed =
    let (hc, hm) = envelope_truthy (read_body r) in
    let (code_truthy, message_truthy) =
      friendly_truthy r.status (envelope (read_body r)).0 (envelope (read_body r)).1 hc hm in
    (
      code_truthy,
      (failed, refl, refl, message_truthy, λ a. text_truthy (message_value r) message_truthy a),
    )

thrown-injective : {d e : ApiError} → thrown d ≡ thrown e → d ≡ e
thrown-injective h = cc

-- `request` throws only where `fetch` fails or the status lies outside 200..299. The code of the error
-- is a truthy value. If `fetch` failed, its status is 0 and its message is not empty; otherwise it has
-- the response's status, and its message is the text of a truthy value, which is not empty either,
-- unless that value is an array.
pub settle-thrown :
    (f : Fetched) (e : ApiError)
    → settle f ≡ thrown e
    → (is_truthy e.code ≡ true)
      × (((f ≡ unreachable) × (e.status ≡ 0) × (truthy e.message ≡ true))
          ⊎ ((r : Response) × (f ≡ answered r)
              × (is_ok r.status ≡ false)
              × (e.status ≡ r.status)
              × (e.message ≡ to_string (message_value r))
              × (is_truthy (message_value r) ≡ true)
              × (is_array (message_value r) ≡ false → truthy e.message ≡ true)))
unfolding settle
settle-thrown unreachable e h =
    let same = sym (thrown-injective h) in
    (
      ap is_truthy (ap (λ x. x.code) same),
      inl (refl, ap (λ x. x.status) same, ap (λ x. truthy x.message) same),
    )
settle-thrown (answered r) e h =
    let (failed, same) = answered-thrown r e h in
    let (code_truthy, kept) = http_error-IsFor r failed in
    let (f1, f2, f3, f4, f5) = subst (IsFor r) (sym same) kept in
    (rw same code_truthy, inr (r, refl, f1, f2, f3, f4, f5))

-- `message` is one of the texts that `request` replaces at this status.
abbrev pub IsGeneric : ℕ → String → Type 0
IsGeneric status message =
    ((status ≡ 401) × (message ≡ "Unauthorized"))
    ⊎ ((status ≡ 403) × (message ≡ "Forbidden"))
    ⊎ ((status ≡ 404) × (message ≡ "Not Found"))

envelope-structured :
    (fs gs : Fields) (code message : String)
    → lookup "error" fs ≡ some (obj gs)
    → lookup "code" gs ≡ some (str code)
    → lookup "message" gs ≡ some (str message)
    → truthy code ≡ true
    → truthy message ≡ true
    → envelope (obj fs) ≡ (str code, str message)
unfolding envelope
envelope-structured fs gs code message he hc hm tc tm = rw he (rw hc (rw hm (rw (tc, tm) refl)))

friendly-specific :
    (status : ℕ) (code : Json) (message : String)
    → truthy message ≡ true
    → ¬ IsGeneric status message
    → friendly status (code, str message) ≡ (code, str message)
unfolding friendly
friendly-specific status code message t h =
    ground
      (arith, eq_iff message "Unauthorized", eq_iff message "Forbidden", eq_iff message "Not Found")

-- The code and the message that the server's envelope `{ error: { code, message } }` holds, where
-- both are non-empty texts, reach the caller unchanged, unless the message is the generic one of
-- a 401, a 403 or a 404.
pub settle-structured :
    (r : Response) (fs gs : Fields) (code message : String)
    → is_ok r.status ≡ false
    → read_body r ≡ obj fs
    → lookup "error" fs ≡ some (obj gs)
    → lookup "code" gs ≡ some (str code)
    → lookup "message" gs ≡ some (str message)
    → truthy code ≡ true
    → truthy message ≡ true
    → ¬ IsGeneric r.status message
    → settle (answered r)
      ≡ thrown (record { message = message; status = r.status; code = str code; raw = obj fs })
unfolding settle http_error to_string
settle-structured r fs gs code message failed hb he hc hm tc tm h =
    rw (failed, hb)
      (rw (envelope-structured fs gs code message he hc hm tc tm)
        (rw (friendly-specific r.status (str code) message tm h) (ground arith)))
