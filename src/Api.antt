-- ===== src/Api.antt =====
-- frontend/src/api/{auth,polls,votes}.js: each endpoint as the call of `request` that it makes.
-- A body is a value that `JSON.stringify` serialises.
use pulsepoll_hcl_guvi.Prelude.{ℕ, String, Option, none, some, List, [], ◌∷◌}
use pulsepoll_hcl_guvi.Text.{◌⧺◌}
use pulsepoll_hcl_guvi.Json.{Json, Items, Fields, str, obj, arr, nil, cons, end, field, decimal}

pub record Call : Type 0 where
  pub endpoint : String
  pub method : String
  pub body : Option Json

-- a body of text members
abbrev pub texts : List (String × String) → Fields
texts [] = end
texts ((k, v) ∷ ps) = field k (str v) (texts ps)

pub register : (name email password : String) → Call
register name email password = record {
  endpoint = "/auth/register";
  method = "POST";
  body = some (obj (texts (("name", name) ∷ ("email", email) ∷ ("password", password) ∷ [])));
}

pub login : (email password : String) → Call
login email password = record {
  endpoint = "/auth/login";
  method = "POST";
  body = some (obj (texts (("email", email) ∷ ("password", password) ∷ [])));
}

pub get_me : Call
get_me = record { endpoint = "/auth/me"; method = "GET"; body = none }

abbrev pub items : List String → Items
items [] = nil
items (s ∷ ss) = cons (str s) (items ss)

-- `expires_at` is a member only where the form gives a deadline
abbrev expires_field : Option String → Fields
expires_field none = end
expires_field (some t) = field "expires_at" (str t) end

pub create_poll : (question : String) (options : List String) (expires_at : Option String) → Call
create_poll question options expires_at = record {
  endpoint = "/polls";
  method = "POST";
  body = some (
      obj (
        field "question" (str question)
          (field "options" (arr (items options)) (expires_field expires_at))));
}

pub get_public_poll : (poll_id : String) → Call
get_public_poll poll_id = record { endpoint = "/polls/" ⧺ poll_id; method = "GET"; body = none }

pub get_my_polls : (page limit : ℕ) → Call
get_my_polls page limit = record {
  endpoint = "/my/polls?page=" ⧺ decimal page ⧺ "&limit=" ⧺ decimal limit;
  method = "GET";
  body = none;
}

-- the only update that the pages send
pub update_poll : (poll_id question : String) → Call
update_poll poll_id question = record {
  endpoint = "/polls/" ⧺ poll_id;
  method = "PATCH";
  body = some (obj (texts (("question", question) ∷ [])));
}

pub close_poll : (poll_id : String) → Call
close_poll poll_id = record {
  endpoint = "/polls/" ⧺ poll_id ⧺ "/close";
  method = "POST";
  body = none;
}

pub delete_poll : (poll_id : String) → Call
delete_poll poll_id = record { endpoint = "/polls/" ⧺ poll_id; method = "DELETE"; body = none }

pub cast_vote : (poll_id option_id : String) → Call
cast_vote poll_id option_id = record {
  endpoint = "/polls/" ⧺ poll_id ⧺ "/vote";
  method = "POST";
  body = some (obj (texts (("option_id", option_id) ∷ [])));
}

pub get_results : (poll_id : String) → Call
get_results poll_id = record {
  endpoint = "/polls/" ⧺ poll_id ⧺ "/results";
  method = "GET";
  body = none;
}
