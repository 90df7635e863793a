-- ===== src/Examples/Access.antt =====
-- A wizard sent twice, a form post and a user who mistyped.
use hivesync.Prelude.{
  if◌then◌else◌, ◌==◌, ℕ, ◌≤◌, ◌≡◌, refl, true, false, none, some, Option, List, [], ◌∷◌, Text,
  codes, length, strip, lstrip, rstrip, arith,
}
use hivesync.Security.Setup.{
  Submission, refused, claimed, taken_meanwhile, unclaimed, steps, step, proceed, checked, counted,
}
use hivesync.Security.Setup.Fair.{is_claimed, listed}
use hivesync.Security.Setup.Races.{one_admin, both_discarded}
use hivesync.Csrf.{HttpRequest, body_part, admit, api_token_authenticated, matches, buffer}
use hivesync.Csrf.Admitted.{HasToken, admitted_has_token}
use hivesync.RateLimit.{check}
use hivesync.RateLimit.Lock.{failures, failures_lock}

abbrev wizard : ℕ → Submission
wizard n = record {
  username = if n == 0 then codes "admin" else codes "owner";
  password = codes "correct horse";
}

one_admin_example :
    (is_claimed ((steps wizard (0 ∷ 0 ∷ 0 ∷ 1 ∷ []) unclaimed).phase 1) ≡ true → ◌≡◌ {A = ℕ} 0 1)
    × ((id : ℕ)
        → (steps wizard (0 ∷ 0 ∷ 0 ∷ 1 ∷ []) unclaimed).phase 0 ≡ claimed id
        → listed id (steps wizard (0 ∷ 0 ∷ 0 ∷ 1 ∷ []) unclaimed).users ≡ true)
unfolding steps step proceed checked counted strip lstrip rstrip
one_admin_example = one_admin wizard (0 ∷ 0 ∷ 0 ∷ 1 ∷ []) 0 1 refl

both_discarded_example :
    let after = steps wizard (0 ∷ 1 ∷ 0 ∷ 1 ∷ 0 ∷ 1 ∷ 0 ∷ 1 ∷ []) unclaimed in
    (after.users ≡ [])
    × (after.phase 0 ≡ refused taken_meanwhile)
    × (after.phase 1 ≡ refused taken_meanwhile)
unfolding strip lstrip rstrip
both_discarded_example = both_discarded wizard (omega arith, refl) (omega arith, refl) refl

abbrev post : HttpRequest
post = record {
  is_http = true;
  method = codes "POST";
  authorization = [];
  session_token = some (codes "t0k");
  header_token = none;
  content_type = codes "multipart/form-data; boundary=x";
  messages = body_part (codes "a=1") true ∷ body_part (codes "&b=2") false ∷ [];
}

abbrev parsed : Text → Text → Option Text
parsed content_type body = some (codes "t0k")

admitted_has_token_example :
    HasToken parsed none post × ((b : Text) → some (codes "a=1&b=2") ≡ some b → length b ≤ 8388608)
unfolding admit api_token_authenticated matches buffer strip lstrip rstrip
admitted_has_token_example =
    admitted_has_token parsed none post (some (codes "a=1&b=2")) refl refl refl

abbrev tries : List (ℕ × Text)
tries = (990, codes "10.0.0.7") ∷ (950, codes "10.0.0.8") ∷ []

failures_lock_example :
    let verdict =
      check
        (λ t. t)
        2
        900
        1000
        1000
        (codes "bob")
        (codes "10.0.0.9")
        (failures (λ t. t) (codes "bob") tries []) in
    (verdict.allowed ≡ false) × (1 ≤ verdict.retry_after_seconds)
failures_lock_example =
    failures_lock (λ t. t) (codes "bob") (codes "10.0.0.9") 2 900 1000 1000 tries [] refl refl
      (omega arith) (omega arith) (omega arith)
      (omega arith, omega arith, (omega arith, omega arith, tt))
