-- ===== src/Auth/Bodies/Rejected.antt =====
-- Bodies of registrations that never reach the service.
use magna_cms.Prelude.{
  ℕ, ◌≡◌, ◌≤◌, refl, String, Text, codes, false, Option, some, List, [], ◌∷◌, ◌++◌, length, ltb,
  Option-cases, Bool-cases, inl, inr, arith,
}
use magna_cms.Exceptions.{
  FieldError, handle_exception, validation_exception_handler, weak_password_msg,
  request_validation_error,
}
use magna_cms.Session.{World, External, err}
use magna_cms.Auth.Security.{PasswordCheck, accepted, too_weak, validate_password_strength}
use magna_cms.Auth.Routes.{Request, ParsedIp, Settings}
use magna_cms.Auth.Bodies.{
  Pydantic, RegisterRequest, email_errors, within_lengths, raised, register_errors, register,
}

nil_of_append : {A : Type 0} (xs ys : List A) → xs ++ ys ≡ [] → (xs ≡ []) × (ys ≡ [])
nil_of_append [] ys h = (refl, h)
nil_of_append (x ∷ xs) ys h = cc

module _ (x : External) (p : Pydantic) (ip_address : Text → ParsedIp) (settings : Settings) where
  weak-answer :
      (request_id : Option Text) (errors : List FieldError) {message : Text}
      → weak_password_msg errors ≡ some message
      → ((handle_exception request_id (request_validation_error errors)).status ≡ 422)
        × ((handle_exception request_id (request_validation_error errors)).code ≡ "WEAK_PASSWORD")
        × ((handle_exception request_id (request_validation_error errors)).message ≡ message)
  unfolding handle_exception validation_exception_handler
  weak-answer request_id errors h = rw h (refl, refl, refl)

  abbrev weak_error : String → FieldError
  weak_error message = record {
    type = "weak_password";
    msg = codes message;
    encoded = p.encoded "weak_password" (codes message);
  }

  -- The errors of the field after the password.
  abbrev later : RegisterRequest → List FieldError
  later r = within_lengths x p 1 200 (codes r.full_name) []

  -- A registration whose password has a length that the field allows, and is refused by the strength
  -- rules, is answered 422 with the code WEAK_PASSWORD and the message of the rule, whatever its other
  -- fields are, if the types of Pydantic's own errors are the names that they are given; the service
  -- is not called.
  pub register-weak :
      (r : RegisterRequest) (request : Request) (w : World) (request_id : Option Text)
      {message : String}
      → ((type : String) → (p.constraint_error type).type ≡ type)
      → 8 ≤ length r.password
      → length r.password ≤ 72
      → validate_password_strength x r.password ≡ too_weak message
      → (errors : List FieldError) × (register x p ip_address settings r request w
          ≡ (err (request_validation_error errors), w))
        × ((handle_exception request_id (request_validation_error errors)).status ≡ 422)
        × ((handle_exception request_id (request_validation_error errors)).code ≡ "WEAK_PASSWORD")
        × ((handle_exception request_id (request_validation_error errors)).message ≡ codes message)
  unfolding register register_errors within_lengths
  register-weak r request w request_id {message} types lo hi weak =
      let short : ltb (length r.password) 8 ≡ false = ground arith in
      let long : ltb 72 (length r.password) ≡ false = ground arith in
      elim (Option-cases (p.email_str r.email)) [
        | inl no_email ↦
            let errors = p.constraint_error "value_error" ∷ weak_error message ∷ later r in
            let h : weak_password_msg errors ≡ some (codes message) =
              rw (types "value_error") refl in
            let (status, code, text) = weak-answer request_id errors h in
            (errors, rw (no_email, short, long, weak) refl, status, code, text)
        | inr (email, found) ↦
            let errors = weak_error message ∷ later r in
            let (status, code, text) = weak-answer request_id errors refl in
            (errors, rw (found, short, long, weak) refl, status, code, text)
      ]

  abbrev strength_errors : RegisterRequest → List FieldError
  strength_errors r = raised x p "weak_password" (validate_password_strength x r.password)

  raised-nil : (type : String) (c : PasswordCheck) → raised x p type c ≡ [] → c ≡ accepted
  raised-nil type accepted h = refl
  raised-nil type (too_weak m) h = cc

  within_lengths-nil :
      (lo hi : ℕ) (value : Text) (after : List FieldError)
      → within_lengths x p lo hi value after ≡ []
      → (lo ≤ length value) × (length value ≤ hi) × (after ≡ [])
  unfolding within_lengths
  within_lengths-nil lo hi value after h = elim (Bool-cases (ltb (length value) lo)) [
    | inl short ↦ let h' = rw short at h in cc
    | inr enough ↦
        let h' = rw enough at h in
        elim (Bool-cases (ltb hi (length value))) [
          | inl long ↦ let h'' = rw long at h' in cc
          | inr fits ↦ let h'' = rw fits at h' in (ground arith, ground arith, h'')
        ]
  ]

  -- The body of a registration without errors has a password of 8 to 72 characters that passes the
  -- strength rules.
  register_errors-strong :
      (r : RegisterRequest)
      → register_errors x p r ≡ []
      → (8 ≤ length r.password)
        × (length r.password ≤ 72)
        × (validate_password_strength x r.password ≡ accepted)
  unfolding register_errors within_lengths
  register_errors-strong r h =
      let password = within_lengths x p 8 72 r.password (strength_errors r) in
      let email = email_errors x p (p.email_str r.email) in
      let (first, _) = nil_of_append (email ++ password) (later r) h in
      let (_, mine) = nil_of_append email password first in
      let (lo, hi, none_raised) = within_lengths-nil 8 72 r.password (strength_errors r) mine in
      (lo, hi, raised-nil "weak_password" (validate_password_strength x r.password) none_raised)
