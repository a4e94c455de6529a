-- ===== src/Tests/OfOverlap.antt =====
-- Two calls for the block b, for a session that lacks only b, one step of each after the other.
use mathlib.Core.List.Memᴰ
use dag.Base.{
  ℕ, ◌+◌, ◌*◌, ◌≡◌, ◌≢◌, ◌≤◌, refl, inl, inr, ap, Str, Str_discrete, bytes, [], ◌∷◌, Memᴰ, ok,
  lookup, first, later, length, total, arith, Result, panic,
}
use dag.Completion.{mark, new_completion, is_complete, write_at, clear}
use dag.Completion.Taken.{AllTaken}
use dag.Session.{receive}
use dag.Service.{
  finalize_receive, store_info, put, pin_and_conclude, add_pin, pin_root, release, conclude,
}
use dag.Service.Finish.{Agrees, finished}
use dag.Service.Transfer.{Waiting}
use dag.Service.Overlap.{
  Receiving, Run, started, still, onward, come, take, find_complete, lock_first, lock_later,
  finalize,
}
use dag.Service.Overlap.Once.{finalized_once, overlap_settles}
use dag.Service.Overlap.Ends.{overlap_ends, count, made}
use dag.Tests.Sample.{letters}
use dag.Tests.OfService.{settings, sid, pins}
use dag.Tests.OfTransfers.{both, second, b_session, b_service, Keeps}

abbrev Runs : ℕ → Receiving → Type 0
Runs = Run letters settings sid Keeps (started b_session b_service)

b_waits : Waiting letters settings sid both (bytes "a") refl b_session b_service
unfolding lookup Str_discrete
b_waits = record { pooled = refl; named = refl; has = refl; unfinished = refl; cancel = refl }

b_agrees : Agrees settings sid both (bytes "a") refl b_session
b_agrees = record {
  checked = refl;
  stores = refl;
  pins = λ _. (pins, refl, refl);
  notified = λ hook e. cc;
}

b-Received :
    (s : Receiving) × Runs 9 s
    × (s.calls ≡ [])
    × (s.taken ≡ bytes "b" ∷ bytes "b" ∷ [])
    × (s.finals ≡ 1)
unfolding receive lookup Str_discrete mark is_complete new_completion write_at clear
    finalize_receive store_info put pin_and_conclude add_pin pin_root release conclude
b-Received =
    let two = onward (onward still (come (bytes "b") refl)) (come (bytes "b") refl) in
    let taken =
      onward (onward two (take first refl refl refl)) (take (later first) refl refl refl) in
    let seen =
      onward (onward taken (find_complete first refl)) (find_complete (later first) refl) in
    let locked = onward (onward seen (lock_first first refl)) (lock_later (later first) refl) in
    (_, onward locked (finalize first refl), refl, refl, refl)

taken_one : b-Received.0.taken ≢ []
taken_one none_yet = absurd (omega (arith, ap length (rw b-Received.3 at none_yet)))

all_b : AllTaken both second b-Received.0.taken
all_b id listed lacking =
    rw b-Received.3
      (elim (Memᴰ.cases_cons lacking) [ inl e ↦ Memᴰ.head e | inr n ↦ absurd (Memᴰ.not-nil n) ])

store_of_answers : (hash : Str) → (stored : Result Str) × Keeps hash stored × (stored ≢ panic)
store_of_answers hash = (ok hash, refl, λ bad. cc)

finalized_once_example : b-Received.0.finals ≤ 1
finalized_once_example =
    (finalized_once letters settings sid Keeps both (bytes "a") refl b_session b_service b_waits
      b_agrees refl b-Received.1).0

overlap_settles_example :
    (b-Received.0.finals ≡ 1)
    × (b-Received.0.ds ≡ finished settings sid both (bytes "a") refl b_session b_service)
overlap_settles_example =
    overlap_settles letters settings sid Keeps both (bytes "a") refl b_session b_service b_waits
      b_agrees refl b-Received.1 b-Received.2 taken_one all_b

overlap_ends_example : 9 ≤ 5 * count b-Received.0.answers + total made b-Received.0.calls
overlap_ends_example =
    (overlap_ends letters settings sid Keeps both (bytes "a") refl b_session b_service b_waits
      b_agrees refl store_of_answers b-Received.1).0
