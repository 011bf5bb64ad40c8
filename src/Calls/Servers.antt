-- ===== src/Calls/Servers.antt =====
-- An async function that runs alone, against a server: what it sends, what it gives, and the state it
-- leaves.
use mulex_fk.Prelude.{List, [], ◌∷◌, ◌++◌, ◌≡◌, refl, ap, sym, ◌∙◌}
use mulex_fk.Prelude.Results.{Error, Result, ok, throw}
use mulex_fk.Convert.Encode.{MxGenericType}
use mulex_fk.Calls.Jobs.{
  ◌>>=◌, Request, Job, done, throws, call, catching, start, look, write, caught,
}

-- The server with its own state. A reply is the bytes of the response, or the rejection of the call.
pub record Server : Type 1 where
  pub State : Type 0
  pub reply : State → Request → Result MxGenericType × State

pub record Outcome (W S A : Type 0) : Type 0 where
  pub result : Result A
  pub state : S
  pub world : W
  pub sent : List Request

-- What is left of a run after a first request.
abbrev pub after_request : {W S A : Type 0} → Request → Outcome W S A → Outcome W S A
after_request q o = record o { sent = q ∷ o.sent }

abbrev pub with_sent : {W S A : Type 0} → List Request → Outcome W S A → Outcome W S A
with_sent qs o = record o { sent = qs ++ o.sent }

abbrev pub refused : {W S A : Type 0} → Error → S → W → Outcome W S A
refused e s w = record { result = throw e; state = s; world = w; sent = [] }

module _ (server : Server) where
  open server use {State, reply}

  unfoldable pub run : {S A : Type 0} → Job S A → S → State → Outcome State S A
  run (done a) s w = record { result = ok a; state = s; world = w; sent = [] }
  run (throws e) s w = refused e s w
  run (call q k) s w = after_request q (elim (reply w q).0 [
    | ok r ↦ run (k r) s (reply w q).1
    | throw e ↦ refused e s (reply w q).1
  ])
  run (catching q k) s w = after_request q (run (k (reply w q).0) s (reply w q).1)
  run (start q k) s w = after_request q (run k s (reply w q).1)
  run (look k) s w = run (k s) s w
  run (write s' k) s w = run k s' w

  -- What a function goes on to with the result of another.
  abbrev pub and_then : {S A B : Type 0} → Outcome State S A → (A → Job S B) → Outcome State S B
  and_then o f = elim o.result [
    | ok a ↦ with_sent o.sent (run (f a) o.state o.world)
    | throw e ↦ with_sent o.sent (refused e o.state o.world)
  ]

  and_then-after :
      {S A B : Type 0} (q : Request) (o : Outcome State S A) (f : A → Job S B)
      → and_then (after_request q o) f ≡ after_request q (and_then o f)
  and_then-after {S} {A} {B} q o f = go o.result
    where
      go :
          (r : Result A)
          → and_then (record o { result = r; sent = q ∷ o.sent }) f
            ≡ after_request q (and_then (record o { result = r }) f)
      go (ok a) = refl
      go (throw e) = refl

  pub run-bind :
      {S A B : Type 0} (m : Job S A) (f : A → Job S B) (s : S) (w : State)
      → run (m >>= f) s w ≡ and_then (run m s w) f
  unfolding run
  run-bind (done a) f s w = refl
  run-bind (throws e) f s w = refl
  run-bind {S} {A} {B} (call q k) f s w = go (λ x. run-bind (k x) f s (reply w q).1) (reply w q).0
    where
      go :
          ((x : MxGenericType)
            → run (k x >>= f) s (reply w q).1 ≡ and_then (run (k x) s (reply w q).1) f)
          → (r : Result MxGenericType)
          → after_request q (elim r [
            | ok x ↦ run (k x >>= f) s (reply w q).1
            | throw e ↦ refused e s (reply w q).1
          ])
            ≡ and_then
                (after_request q (elim r [
                  | ok x ↦ run (k x) s (reply w q).1
                  | throw e ↦ refused e s (reply w q).1
                ]))
                f
      go ih (ok x) =
          ap (after_request q) (ih x) ∙ sym (and_then-after q (run (k x) s (reply w q).1) f)
      go ih (throw e) = refl
  run-bind (catching q k) f s w =
      ap (after_request q) (run-bind (k (reply w q).0) f s (reply w q).1)
      ∙ sym (and_then-after q (run (k (reply w q).0) s (reply w q).1) f)
  run-bind (start q k) f s w =
      ap (after_request q) (run-bind k f s (reply w q).1)
      ∙ sym (and_then-after q (run k s (reply w q).1) f)
  run-bind (look k) f s w = run-bind (k s) f s w
  run-bind (write s' k) f s w = run-bind k f s' w

  -- What a `try` leaves: the result, or what was thrown, as a value.
  abbrev pub as_value : {S A : Type 0} → Outcome State S A → Outcome State S (Result A)
  as_value o = record { result = ok o.result; state = o.state; world = o.world; sent = o.sent }

  pub run-caught :
      {S A : Type 0} (m : Job S A) (s : S) (w : State) → run (caught m) s w ≡ as_value (run m s w)
  unfolding run caught
  run-caught (done a) s w = refl
  run-caught (throws e) s w = refl
  run-caught {S} {A} (call q k) s w = go (λ x. run-caught (k x) s (reply w q).1) (reply w q).0
    where
      go :
          ((x : MxGenericType)
            → run (caught (k x)) s (reply w q).1 ≡ as_value (run (k x) s (reply w q).1))
          → (r : Result MxGenericType)
          → after_request {W = State} {S = S} {A = Result A} q
              (run (elim r [ ok x ↦ caught (k x) | throw e ↦ done (throw e) ]) s (reply w q).1)
            ≡ as_value (
                after_request q (elim r [
                  | ok x ↦ run (k x) s (reply w q).1
                  | throw e ↦ refused e s (reply w q).1
                ]))
      go ih (ok x) = ap (after_request q) (ih x)
      go ih (throw e) = refl
  run-caught (catching q k) s w =
      ap (after_request q) (run-caught (k (reply w q).0) s (reply w q).1)
  run-caught (start q k) s w = ap (after_request q) (run-caught k s (reply w q).1)
  run-caught (look k) s w = run-caught (k s) s w
  run-caught (write s' k) s w = run-caught k s' w
