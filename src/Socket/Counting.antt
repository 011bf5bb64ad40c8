-- ===== src/Socket/Counting.antt =====
-- websocket.ts: where the ids of calls and the promises of methods stand, counted.
use mulex_fk.Prelude.{
  ℕ, ◌+◌, ◌≤◌, ◌≡◌, refl, Bool, false, some, List, [], ◌∷◌, map, arith, count, ltb, ◌==◌,
  if◌then◌else◌,
}
use mulex_fk.Prelude.Keys.{number_key}
use mulex_fk.Stores.Maps.{get, put, delete}
use mulex_fk.Socket.State.{
  Callback, PromiseId, Deferred, Waiter, call_waits, subscribe_waits, unsubscribe_waits,
  ready_waits, Effect, resolve, resolve_void, reject, notify, Socket,
}

-- The entries of deferred_p for an id, and for a promise.
abbrev pub keyed : ℕ → ℕ × Deferred → Bool
keyed k (id, d) = id == k

abbrev pub answers : PromiseId → ℕ × Deferred → Bool
answers p (id, d) = d.promise == p

abbrev pub waits_with_id : ℕ → Waiter → Bool
waits_with_id k (call_waits m id d) = id == k
waits_with_id k _ = false

abbrev pub waits_for : PromiseId → Waiter → Bool
waits_for p (call_waits m id d) = d.promise == p
waits_for p (subscribe_waits m event callback q) = q == p
waits_for p (unsubscribe_waits m event q) = q == p
waits_for p (ready_waits q) = q == p

abbrev pub settles : PromiseId → Effect → Bool
settles p (resolve q x) = q == p
settles p (resolve_void q) = q == p
settles p (reject q) = q == p
settles p _ = false

-- The calls that are under way with an id: sent and not answered, or waiting to be sent.
abbrev pub under_way : ℕ → Socket → ℕ
under_way k s =
    count (keyed k) s.deferred_p
    + count (waits_with_id k) s.waiting_p
    + count (waits_with_id k) s.resumed

-- The places in which a promise waits to be settled.
abbrev pub pending : PromiseId → Socket → ℕ
pending p s =
    count (answers p) s.deferred_p + count (waits_for p) s.waiting_p + count (waits_for p) s.resumed

-- How often a promise has been resolved or rejected.
abbrev pub settled : PromiseId → Socket → ℕ
settled p s = count (settles p) s.effects

-- 1 for what has been handed out so far, 0 for the rest.
abbrev pub issued : ℕ → ℕ → ℕ
issued n bound = if ltb n bound then 1 else 0

pub count_key-put :
    (j : ℕ) (m : List (ℕ × Deferred)) (k : ℕ) (d : Deferred)
    → count (keyed j) (put m k d) ≤ count (keyed j) m + (if k == j then 1 else 0)
unfolding put
count_key-put j [] k d = ground arith
count_key-put j ((i, x) ∷ m) k d = ground (arith, count_key-put j m k d)

pub count_key-delete :
    (j : ℕ) (m : List (ℕ × Deferred)) (k : ℕ) → count (keyed j) (delete m k) ≤ count (keyed j) m
unfolding delete
count_key-delete j [] k = omega arith
count_key-delete j ((i, x) ∷ m) k = ground (arith, count_key-delete j m k)

pub count-answers-put :
    (p : PromiseId) (m : List (ℕ × Deferred)) (k : ℕ) (d : Deferred)
    → count (keyed k) m ≡ 0
    → count (answers p) (put m k d) ≡ count (answers p) m + (if d.promise == p then 1 else 0)
unfolding put
count-answers-put p [] k d h = ground arith
count-answers-put p ((i, x) ∷ m) k d h = ground (arith, count-answers-put p m k d)

count-answers-delete_unused :
    (p : PromiseId) (m : List (ℕ × Deferred)) (k : ℕ)
    → count (keyed k) m ≡ 0
    → count (answers p) (delete m k) ≡ count (answers p) m
unfolding delete
count-answers-delete_unused p [] k h = refl
count-answers-delete_unused p ((i, x) ∷ m) k h = ground (arith, count-answers-delete_unused p m k)

pub count-answers-delete :
    (p : PromiseId) (m : List (ℕ × Deferred)) (k : ℕ) (d : Deferred)
    → count (keyed k) m ≤ 1
    → get m k ≡ some d
    → count (answers p) (delete m k) + (if d.promise == p then 1 else 0) ≡ count (answers p) m
unfolding delete get
count-answers-delete p [] k d h e = cc
count-answers-delete p ((i, x) ∷ m) k d h e =
    ground (arith, count-answers-delete p m k d, count-answers-delete_unused p m k)

-- Telling the program of a change of the connection settles nothing.
pub count-settles-notify :
    (p : PromiseId) (callbacks : List Callback) (up : Bool)
    → count (settles p) (map (λ c. notify c up) callbacks) ≡ 0
count-settles-notify p [] up = refl
count-settles-notify p (c ∷ cs) up = omega (arith, count-settles-notify p cs up)
