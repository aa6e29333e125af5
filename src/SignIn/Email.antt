-- ===== src/SignIn/Email.antt =====
-- The test of an email address in LoginPage.jsx and RegisterPage.jsx against the meaning of its
-- regular expression.
use Prim.Native.String.{[], ◌∷◌}
use text.Mathlib.TextLemmas.{nil-append, cons-append}
use pulsepoll_hcl_guvi.Prelude.{
  ◌≡◌, refl, ap, ◌∙◌, sym, ◌↔◌, inl, inr, arith, Char, code, String, true, false, not, ◌&&◌, nat_eq,
  Bool-cases,
}
use pulsepoll_hcl_guvi.Text.{◌⧺◌, is_space}
use pulsepoll_hcl_guvi.SignIn.{starts_solid, dot_ahead, domain_ahead, at_ahead, is_email}

-- `\S*`
abbrev pub IsSolid : String → Type 0
IsSolid [] = Unit
IsSolid (c ∷ s) = (is_space (code c) ≡ false) × IsSolid s

-- `\S+`
abbrev pub IsRun : String → Type 0
IsRun [] = ⊥
IsRun (c ∷ s) = (is_space (code c) ≡ false) × IsSolid s

-- A text that `\S+\.\S+` matches from its start.
pub record Domain (s : String) : Type 0 where
  pub name : String
  pub dot : Char
  pub top : String
  pub after : String
  pub same : s ≡ name ⧺ (dot ∷ (top ⧺ after))
  pub name-IsRun : IsRun name
  pub is_dot : code dot ≡ b'.'
  pub top-IsRun : IsRun top

-- A text in which `\S+@\S+\.\S+` finds a match.
pub record Match (s : String) : Type 0 where
  pub before : String
  pub user : String
  pub at : Char
  pub rest : String
  pub same : s ≡ before ⧺ (user ⧺ (at ∷ rest))
  pub user-IsRun : IsRun user
  pub is_at : code at ≡ b'@'
  pub domain : Domain rest

starts_solid-append : (t s : String) → IsRun t → starts_solid (t ⧺ s) ≡ true
starts_solid-append [] s h = absurd h
starts_solid-append (c ∷ t) s h = rw cons-append (ground (arith, h.0))

dot_ahead-append :
    (b : String) (d : Char) (t s : String)
    → IsSolid b
    → code d ≡ b'.'
    → IsRun t
    → dot_ahead (b ⧺ (d ∷ (t ⧺ s))) ≡ true
unfolding dot_ahead
dot_ahead-append [] d t s h e r = rw nil-append (ground (arith, starts_solid-append t s r))
dot_ahead-append (c ∷ b) d t s h e r =
    rw cons-append (ground (arith, h.0, dot_ahead-append b d t s h.1 e r))

Domain-complete : (s : String) → Domain s → domain_ahead s ≡ true
Domain-complete s m = rw m.same (go m.name m.name-IsRun)
  where
    go : (b : String) → IsRun b → domain_ahead (b ⧺ (m.dot ∷ (m.top ⧺ m.after))) ≡ true
    go [] r = absurd r
    go (c ∷ b) r =
        rw cons-append
          (ground (arith, r.0, dot_ahead-append b m.dot m.top m.after r.1 m.is_dot m.top-IsRun))

email-user :
    (u : String) (a : Char) (s : String)
    → IsRun u
    → code a ≡ b'@'
    → domain_ahead s ≡ true
    → is_email (u ⧺ (a ∷ s)) ≡ true
unfolding is_email
email-user [] a s r e h = absurd r
email-user (c ∷ []) a s r e h = rw (cons-append, nil-append) (ground (arith, r.0))
email-user (c ∷ (d ∷ u)) a s r e h = rw cons-append (ground (arith, email-user (d ∷ u) a s r.1 e h))

email-before : (b s : String) → is_email s ≡ true → is_email (b ⧺ s) ≡ true
unfolding is_email
email-before [] s h = rw nil-append h
email-before (c ∷ b) s h = rw cons-append (ground (arith, email-before b s h))

email_complete : (s : String) → Match s → is_email s ≡ true
email_complete s m = rw m.same (
    email-before m.before (m.user ⧺ (m.at ∷ m.rest))
      (email-user m.user m.at m.rest m.user-IsRun m.is_at (Domain-complete m.rest m.domain)))

email_head :
    (c : Char) (s : String)
    → starts_solid (c ∷ s) ≡ true
    → (t : String) × (after : String) × (c ∷ s ≡ t ⧺ after) × IsRun t
email_head c s h =
    (c ∷ [], s, sym (cons-append c [] s ∙ ap (c ∷◌) (nil-append s)), (ground arith, tt))

solid_head :
    (s : String)
    → starts_solid s ≡ true
    → (t : String) × (after : String) × (s ≡ t ⧺ after) × IsRun t
solid_head [] h = cc
solid_head (c ∷ s) h = email_head c s h

-- What `dot_ahead` finds: solid characters, a dot, and a run.
record Dotted (s : String) : Type 0 where
  pub name : String
  pub dot : Char
  pub top : String
  pub after : String
  pub same : s ≡ name ⧺ (dot ∷ (top ⧺ after))
  pub name-IsSolid : IsSolid name
  pub is_dot : code dot ≡ b'.'
  pub top-IsRun : IsRun top

dot_ahead_sound : (s : String) → dot_ahead s ≡ true → Dotted s
unfolding dot_ahead
dot_ahead_sound [] h = cc
dot_ahead_sound (c ∷ s) h = elim (Bool-cases (nat_eq (code c) b'.' && starts_solid s)) [
  | inl e ↦
      let (t, after, same, run) = solid_head s (ground arith) in
      record {
        name = [];
        dot = c;
        top = t;
        after = after;
        same = ap (c ∷◌) same ∙ sym (nil-append (c ∷ (t ⧺ after)));
        name-IsSolid = tt;
        is_dot = ground arith;
        top-IsRun = run;
      }
  | inr e ↦
      let d = dot_ahead_sound s (ground arith) in
      record {
        name = c ∷ d.name;
        dot = d.dot;
        top = d.top;
        after = d.after;
        same = ap (c ∷◌) d.same ∙ sym (cons-append c d.name (d.dot ∷ (d.top ⧺ d.after)));
        name-IsSolid = (ground arith, d.name-IsSolid);
        is_dot = d.is_dot;
        top-IsRun = d.top-IsRun;
      }
]

Domain-sound : (s : String) → domain_ahead s ≡ true → Domain s
Domain-sound [] h = cc
Domain-sound (c ∷ s) h =
    let d = dot_ahead_sound s (ground arith) in
    record {
      name = c ∷ d.name;
      dot = d.dot;
      top = d.top;
      after = d.after;
      same = ap (c ∷◌) d.same ∙ sym (cons-append c d.name (d.dot ∷ (d.top ⧺ d.after)));
      name-IsRun = (ground arith, d.name-IsSolid);
      is_dot = d.is_dot;
      top-IsRun = d.top-IsRun;
    }

at_sound :
    (s : String)
    → at_ahead s ≡ true
    → (a : Char) × (rest : String) × (s ≡ a ∷ rest) × (code a ≡ b'@') × Domain rest
at_sound [] h = cc
at_sound (a ∷ s) h = (a, s, refl, ground arith, Domain-sound s (ground arith))

email_sound : (s : String) → is_email s ≡ true → Match s
unfolding is_email
email_sound [] h = cc
email_sound (c ∷ s) h = elim (Bool-cases (not (is_space (code c)) && at_ahead s)) [
  | inl e ↦
      let (a, rest, same, is_at, domain) = at_sound s (ground arith) in
      record {
        before = [];
        user = c ∷ [];
        at = a;
        rest = rest;
        same =
            ap (c ∷◌) same
            ∙ sym (
                nil-append ((c ∷ []) ⧺ (a ∷ rest))
                ∙ cons-append c [] (a ∷ rest)
                ∙ ap (c ∷◌) (nil-append (a ∷ rest)));
        user-IsRun = (ground arith, tt);
        is_at = is_at;
        domain = domain;
      }
  | inr e ↦
      let m = email_sound s (ground arith) in
      record {
        before = c ∷ m.before;
        user = m.user;
        at = m.at;
        rest = m.rest;
        same = ap (c ∷◌) m.same ∙ sym (cons-append c m.before (m.user ⧺ (m.at ∷ m.rest)));
        user-IsRun = m.user-IsRun;
        is_at = m.is_at;
        domain = m.domain;
      }
]

-- The test accepts exactly the texts in which the regular expression finds a match: somewhere a run
-- of characters other than space, an "@", such a run, a dot, and such a run.
pub is_email_iff : (s : String) → (is_email s ≡ true) ↔ Match s
is_email_iff s = (email_sound s, email_complete s)
