-- ===== src/Tests/OfTransfers.antt =====
-- Pushes and pulls of the node b of a DAG of two nodes.
use dag.Base.{
  ℕ, ◌+◌, ◌*◌, ◌≡◌, ◌≢◌, ◌≤◌, refl, sym, ◌∙◌, Str, Str_discrete, bytes, true, [], ◌∷◌, Memᴰ, none,
  some, Result, ok, err, external, false, length, lookup, first, arith, ◌<◌, ap,
}
use dag.Manifest.{Manifest}
use dag.Completion.{new_completion, is_complete, mark, clear, write_at}
use dag.Session.{Session, Response, status_ok, status_errored, receive, is_finalized_once}
use dag.Service.{
  Service, receive_block, after_receive, finalize_receive, store_info, put, pin_and_conclude,
  add_pin, pin_root, release, conclude,
}
use dag.Push
use dag.Push.Measure.{push_ends}
use dag.Push.Inv.{IsFair}
use dag.Push.ToService.{FromService, answers, push_to_service}
use dag.Pull
use dag.Pull.Inv.{Stored}
use dag.Pull.Progress.{pullers_of_pos}
use dag.Pull.Correct.{pull_nil_sound}
use dag.Push.Begin.{push_do}
use dag.Push.Whole.{push_do_returns}
use dag.Tests.Sample.{letters, getter, parse_letter}
use dag.Tests.OfService.{settings, sid, parse_letter_calm, fetch_calm}

abbrev pub both : Manifest
both = record { links = (0, 1) ∷ []; nodes = bytes "a" ∷ bytes "b" ∷ [] }

abbrev pub second : Manifest
second = record { links = []; nodes = bytes "b" ∷ [] }

-- The node g is not in the local store.
abbrev wide : Manifest
wide = record { links = (0, 1) ∷ []; nodes = bytes "a" ∷ bytes "g" ∷ [] }

abbrev absent : Manifest
absent = record { links = []; nodes = bytes "g" ∷ [] }

abbrev pub b_wanted : Memᴰ (bytes "b") second.nodes
b_wanted = Memᴰ.head refl

abbrev pub b_listed : Memᴰ (bytes "b") both.nodes
b_listed = Memᴰ.tail (Memᴰ.head refl)

-- A remote that takes each block.
abbrev Takes : Str → Response → Type 0
Takes h r = r ≡ record { hash = h; status = status_ok; error = none }

no_error : status_ok ≢ status_errored
no_error e = cc

taken_status : (h : Str) (r : Response) → Takes h r → r.status ≡ status_errored → r.error ≢ none
taken_status h r takes bad = absurd (no_error (sym (ap (λ (x : Response). x.status) takes) ∙ bad))

Takes-IsFair : IsFair Takes
Takes-IsFair = record {
  names = λ h r takes calm. ap (λ (x : Response). x.hash) takes;
  explains = taken_status;
}

Takes-Responsive : Push.Progress.Responsive letters getter both second Takes
Takes-Responsive = record {
  parses = parse_letter_calm;
  gets = fetch_calm;
  replies = λ h. (record { hash = h; status = status_ok; error = none }, refl);
}

peopled : 0 < Push.parallelism_of both
unfolding Push.parallelism_of
peopled = omega arith

-- A remote of an older protocol, which asks for b in the session "s".
abbrev old_remote : Push.Begin.Remote
old_remote = record {
  new_receive_session = λ info pin meta. ok (sid, second);
  protocol_version = ok (bytes "/dsync/0.1.1");
  receive_blocks = none;
  reader = λ m. err (external false []);
}

abbrev old_push : Push.Begin.Push
old_push = record {
  pin_on_complete = true;
  info = record { manifest = some both; labels = []; sizes = none };
  manifest = both;
  meta = [];
  parallelism = 1;
}

goes_by_blocks : push_do old_remote old_push ≡ Push.Begin.block_by_block sid second
unfolding push_do
goes_by_blocks = refl

push_do_returns_example :
    Push.Correct.Ends letters getter both second Takes (Push.started letters both second)
push_do_returns_example =
    push_do_returns old_remote sid second old_push letters getter Takes goes_by_blocks Takes-IsFair
      Takes-Responsive peopled Push.still refl

-- The session of a remote that lacks b.
abbrev pub b_session : Session
b_session = record {
  id = sid;
  pin = true;
  meta = [];
  info = record { manifest = some both; labels = []; sizes = none };
  diff = second;
  prog = new_completion both second;
  fin = false;
}

abbrev pub b_service : Service
b_service = record {
  session_pool = (sid, b_session) ∷ [];
  session_cancels = (sid, tt) ∷ [];
  cancelled = [];
  info_store = some [];
  pinned = [];
  completed = [];
}

-- A store that takes each block under its name.
abbrev pub Keeps : Str → Result Str → Type 0
Keeps h stored = stored ≡ ok h

abbrev pub b_taken : Response
b_taken = record { hash = bytes "b"; status = status_ok; error = none }

b_answer :
    (after : Service) × (receive_block letters settings sid (bytes "b") (ok (bytes "b")) b_service
      ≡ ok (b_taken, after))
unfolding receive_block receive after_receive finalize_receive store_info put pin_and_conclude
    add_pin pin_root release conclude is_finalized_once lookup Str_discrete mark is_complete
    new_completion write_at clear
b_answer = (_, refl)

b_answered : FromService letters settings sid Keeps (bytes "b") b_taken
b_answered = let (after, ran) = b_answer in answers (ok (bytes "b")) b_service after refl ran

all_there : is_complete (mark (bytes "b") both (new_completion both second)) ≡ true
unfolding mark is_complete new_completion write_at clear Str_discrete
all_there = refl

abbrev Pushed : ℕ → Type 0
Pushed n =
    (t : Push.Sending letters) × Push.Run letters getter both
      (FromService letters settings sid Keeps) (Push.started letters both second) n t
    × Memᴰ none t.results

b-Pushed : Pushed 5
unfolding parse_letter
b-Pushed =
    let fed = Push.onward Push.still (Push.feed refl peopled) in
    let parsed = Push.onward fed (Push.parse first refl) in
    let sent = Push.onward parsed (Push.send first refl b_answered) in
    let marked = Push.onward sent (Push.handle_ok first refl) in
    (_, Push.onward marked (Push.finished refl all_there), Memᴰ.head refl)

push_to_service_example : Keeps (bytes "b") (ok (bytes "b"))
push_to_service_example =
    push_to_service letters settings sid Keeps letters getter both second b-Pushed.1 b-Pushed.2
      (bytes "b") b_listed b_wanted

push_ends_example : 5 ≤ 9 * length second.nodes + 642
push_ends_example =
    push_ends letters getter both (FromService letters settings sid Keeps) second b-Pushed.1

-- A remote that serves for each block its name as the bytes, and a store that takes them.
abbrev Serves : Str → Result Str → Type 0
Serves h raw = raw ≡ ok h

abbrev old_source : Pull.Begin.Remote
old_source = record {
  get_dag_info = λ path meta. ok (record { manifest = some wide; labels = []; sizes = none });
  protocol_version = ok (bytes "/dsync/0.1.1");
  open_block_stream = none;
}

abbrev Pulled : ℕ → Type 0
Pulled n =
    (t : Pull.Pulling) × Pull.Run both Serves Keeps (Pull.started both second) n t
    × Memᴰ none t.results
    × (t.failures ≡ 0)
    × (t.ctx_done ≡ false)

b-Pulled : Pulled 4
b-Pulled =
    let asked =
      Pull.onward Pull.still (Pull.ask refl (pullers_of_pos second (bytes "b") b_wanted)) in
    let got = Pull.onward asked (Pull.get first refl) in
    let put = Pull.onward got (Pull.store first refl refl) in
    (_, Pull.onward put (Pull.finished refl all_there), Memᴰ.head refl, refl, refl)

pull_nil_sound_example : Stored both second Serves Keeps (bytes "b")
pull_nil_sound_example =
    pull_nil_sound both second Serves Keeps b-Pulled.1 b-Pulled.2 b-Pulled.3 b-Pulled.4 (bytes "b")
      b_listed b_wanted
