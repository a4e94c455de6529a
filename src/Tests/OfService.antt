-- ===== src/Tests/OfService.antt =====
-- Transfers of the sample.
use mathlib.Core.List.Memᴰ
use dag.Base.{
  ap, str_contains, arith, ℕ, zero, suc, ◌≡◌, ◌≢◌, refl, sym, ◌∙◌, ◌↔◌, ◌⊎◌, pin_not_supported, inl,
  inr, Str, Str_discrete, bytes, true, false, [], ◌∷◌, Memᴰ, none, some, Error, ok, err, panic,
  lookup,
}
use dag.Manifest.{Manifest}
use dag.Manifest.Build.{done}
use dag.Info.{Info}
use dag.Missing.{missing, is_not_found}
use dag.Missing.Laws.{Lacks, Fails, missing_lem}
use dag.Completion.{new_completion}
use dag.Session.{Session, status_ok}
use dag.Service.{Settings, Service, PinApi, receive_block, new_receive_session, lacks_pin}
use dag.Service.Queries.{get_dag_info}
use dag.Service.Finish.{Agrees, finished}
use dag.Service.Transfer.{Waiting, deliver, OnlyHere, transfer_finalizes}
use dag.Stream.{Archive, add_all_from_car_reader}
use dag.Service.Stream.{receive_blocks, receive_blocks_lem}
use dag.Service.Begin.{Asked, new_receive_session_lem}
use dag.Service.Answers.{get_dag_info-deliver, nodeless}
use dag.Tests.Sample.{letters, getter, parse_letter, fetch, first_byte}
use dag.Tests.Insertion.{insertion}

-- The node g is not in the sample.
abbrev pub wanted : Manifest
wanted = record { links = (0, 1) ∷ (0, 2) ∷ []; nodes = bytes "a" ∷ bytes "g" ∷ bytes "h" ∷ [] }

abbrev pub lacked : Manifest
lacked = record { links = []; nodes = bytes "g" ∷ bytes "h" ∷ [] }

pub lacked_is : missing letters getter wanted ≡ ok lacked
unfolding missing parse_letter is_not_found str_contains
lacked_is = refl

pub parse_letter_calm : (x : Str) → parse_letter x ≢ panic
unfolding parse_letter
parse_letter_calm [] e = cc
parse_letter_calm (c ∷ rest) e = cc

pub fetch_calm : (n : ℕ) → fetch n ≢ panic
fetch_calm zero e = cc
fetch_calm (suc zero) e = cc
fetch_calm (suc (suc zero)) e = cc
fetch_calm (suc (suc (suc zero))) e = cc
fetch_calm (suc (suc (suc (suc zero)))) e = cc
fetch_calm (suc (suc (suc (suc (suc zero))))) e = cc
fetch_calm _ e = cc

missing_lem_example :
    ((d : Manifest) × (missing letters getter wanted ≡ ok d)
      × (d.links ≡ [])
      × ((id : Str)
          → Memᴰ id d.nodes ↔ ((x : Str) × Memᴰ x wanted.nodes × Lacks letters getter x id)))
    ⊎ ((e : Error) × (x : Str) × (missing letters getter wanted ≡ err e)
        × Memᴰ x wanted.nodes
        × Fails letters getter x e)
missing_lem_example = missing_lem letters getter (parse_letter_calm, fetch_calm) wanted

abbrev pub info : Info
info = record { manifest = some wanted; labels = []; sizes = none }

abbrev pub pins : PinApi
pins = record { add = λ root. none; rm = λ root. none }

abbrev pub settings : Settings
settings = record {
  require_all_blocks = false;
  allow_removes = false;
  pre_check = λ i meta. none;
  final_check = λ i meta. none;
  on_complete_hook = none;
  get_dag_info_check = none;
  open_block_stream_check = none;
  remove_check = none;
  pin = some pins;
  put_error = λ root i. none;
}

abbrev pub sid : Str
sid = bytes "s"

abbrev pub session : Session
session = record {
  id = sid;
  pin = true;
  meta = [];
  info = info;
  diff = lacked;
  prog = new_completion wanted lacked;
  fin = false;
}

abbrev pub service : Service
service = record {
  session_pool = (sid, session) ∷ [];
  session_cancels = (sid, tt) ∷ [];
  cancelled = [];
  info_store = some [];
  pinned = [];
  completed = [];
}

waits : Waiting letters settings sid wanted (bytes "a") refl session service
unfolding lookup Str_discrete
waits = record { pooled = refl; named = refl; has = refl; unfinished = refl; cancel = refl }

agrees : Agrees settings sid wanted (bytes "a") refl session
agrees = record {
  checked = refl;
  stores = refl;
  pins = λ _. (pins, refl, refl);
  notified = λ hook e. cc;
}

all_come :
    (id : Str) → Memᴰ id wanted.nodes → Memᴰ id lacked.nodes → Memᴰ id (bytes "h" ∷ bytes "g" ∷ [])
all_come id listed lacks = elim (Memᴰ.cases_cons lacks) [
  | inl e ↦ Memᴰ.tail (Memᴰ.head e)
  | inr t ↦ elim (Memᴰ.cases_cons t) [ inl e ↦ Memᴰ.head e | inr n ↦ absurd (Memᴰ.not-nil n) ]
]

g_not_first : ¬ Memᴰ (bytes "g") (bytes "h" ∷ [])
g_not_first m = elim (Memᴰ.cases_cons m) [
  | inl e ↦
      let same : first_byte (bytes "g") ≡ first_byte (bytes "h") = ap first_byte e in omega arith
  | inr n ↦ absurd (Memᴰ.not-nil n)
]

transfer_finalizes_example :
    (before : Service) × (after : Service) × (deliver letters settings sid wanted
        (bytes "a")
        refl
        (bytes "h" ∷ [])
        service
      ≡ ok before)
    × OnlyHere letters settings sid wanted (bytes "a") refl service before
    × (lookup Str_discrete sid before.session_pool ≢ none)
    × (receive_block letters settings sid (bytes "g") (ok (bytes "g")) before
        ≡ ok (record { hash = bytes "g"; status = status_ok; error = none }, after))
    × (lookup Str_discrete sid after.session_pool ≡ none)
    × OnlyHere letters settings sid wanted
        (bytes "a")
        refl
        (finished settings sid wanted (bytes "a") refl session service)
        after
transfer_finalizes_example =
    transfer_finalizes letters settings sid wanted (bytes "a") refl session service waits agrees
      refl (bytes "h" ∷ []) (bytes "g") (Memᴰ.tail (Memᴰ.head refl)) (Memᴰ.head refl) g_not_first
      all_come

new_receive_session_lem_example :
    ((sess : Session) × (ds' : Service) × (new_receive_session letters getter settings
          (bytes "t")
          info
          true
          []
          service
        ≡ ok (ds', sess))
      × (settings.pre_check info [] ≡ none)
      × (lacks_pin settings.pin true ≡ false)
      × Waiting letters settings (bytes "t") wanted (bytes "a") refl sess ds'
      × (sess.prog ≡ new_completion wanted sess.diff)
      × Asked letters getter settings
          (bytes "t")
          wanted
          (bytes "a")
          refl
          info
          refl
          true
          []
          service
          sess.diff)
    ⊎ ((e : Error) × (new_receive_session letters getter settings (bytes "t") info true [] service
          ≡ err e)
        × ((settings.pre_check info [] ≡ some e)
            ⊎ (((lacks_pin settings.pin true ≡ true) × (e ≡ pin_not_supported))
                ⊎ ((settings.require_all_blocks ≡ false)
                    × (missing letters getter wanted ≡ err e)))))
new_receive_session_lem_example =
    new_receive_session_lem letters getter settings (bytes "t") wanted (bytes "a") refl info refl
      true [] service (λ e. cc (sym e ∙ lacked_is))

get_dag_info-deliver_example :
    (before : Service) × (after : Service) × (deliver letters settings sid wanted
        (bytes "a")
        refl
        (bytes "h" ∷ [])
        service
      ≡ ok before)
    × (receive_block letters settings sid (bytes "g") (ok (bytes "g")) before
        ≡ ok (record { hash = bytes "g"; status = status_ok; error = none }, after))
    × (get_dag_info letters getter insertion 9 settings (bytes "a") [] after ≡ done info)
get_dag_info-deliver_example =
    get_dag_info-deliver letters getter insertion 9 settings sid wanted (bytes "a") refl session
      service [] [] waits agrees refl refl (bytes "h" ∷ []) (bytes "g") (Memᴰ.tail (Memᴰ.head refl))
      (Memᴰ.head refl) g_not_first all_come

abbrev void : Session
void = record {
  id = sid;
  pin = false;
  meta = [];
  info = record { manifest = some (nodeless []); labels = []; sizes = none };
  diff = nodeless [];
  prog = [];
  fin = false;
}

abbrev exposed : Service
exposed = record service { session_pool = (sid, void) ∷ [] }

-- An archive with one of the two missing blocks.
abbrev pub half : Archive
half = record { opened = none; blocks = (bytes "h", none) ∷ []; ending = none }

receive_blocks_lem_example :
    ((add_all_from_car_reader half).1 ≡ none
      → (after : Service) × (receive_blocks settings sid half service ≡ ok (after, none))
        × (lookup Str_discrete sid after.session_pool ≡ none)
        × OnlyHere letters settings sid wanted
            (bytes "a")
            refl
            (finished settings sid wanted (bytes "a") refl session service)
            after)
    × ((e : Error)
        → (add_all_from_car_reader half).1 ≡ some e
        → (after : Service) × (receive_blocks settings sid half service ≡ ok (after, some e))
          × (lookup Str_discrete sid after.session_pool ≢ none)
          × OnlyHere letters settings sid wanted (bytes "a") refl service after)
receive_blocks_lem_example =
    receive_blocks_lem letters settings sid wanted (bytes "a") refl session service waits agrees
      half
