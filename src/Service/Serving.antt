-- ===== src/Service/Serving.antt =====
-- dsync/dsync.go: what a Dsync serves, from New and StartRemote. The connections themselves belong to
-- net/http and libp2p.
use mathlib.Core.List.Memᴰ
use dag.Base.{
  ap, ◌≡◌, ◌≢◌, ◌↔◌, ◌⊎◌, inl, inr, refl, Str, bytes, Bool, true, false, List, [], ◌∷◌, ◌++◌, Memᴰ,
  Option, none, some, Result, Error, ok, err, external,
}
use dag.Service.Remotes.{dsync_protocol_id}

-- The fields httpServer, by its address, and p2pHandler.
pub record Endpoints : Type 0 where
  pub http_server : Option Str
  pub p2p_handler : Bool

-- The end of New: `has_host` tells whether there is a libp2p host.
abbrev pub endpoints_of : Str → Bool → Endpoints
endpoints_of [] has_host = record { http_server = none; p2p_handler = has_host }
endpoints_of (b ∷ bs) has_host = record { http_server = some (b ∷ bs); p2p_handler = has_host }

-- What is served: "/dsync" at an address, and a protocol over libp2p.
pub data Serving : Type 0 where
  listening : Str → Serving
  stream_handler : Str → Serving

abbrev pub not_a_remote : Error
not_a_remote = external false (bytes "dsync is not configured as a remote")

abbrev over_http : Option Str → List Serving
over_http none = []
over_http (some addr) = listening addr ∷ []

abbrev over_p2p : Bool → List Serving
over_p2p true = stream_handler dsync_protocol_id ∷ []
over_p2p false = []

abbrev serves : Option Str → Bool → Result (List Serving)
serves none false = err not_a_remote
serves none true = ok (over_p2p true)
serves (some addr) has_host = ok (over_http (some addr) ++ over_p2p has_host)

unfoldable pub start_remote : Endpoints → Result (List Serving)
start_remote ds = serves ds.http_server ds.p2p_handler

-- StartRemote of a Dsync that New made: without an address and a host it returns an error. Otherwise
-- it serves the address, if there is one, and then the protocol, if there is a host.
pub start_remote_lem :
    (addr : Str) (has_host : Bool)
    → ((addr ≡ [])
        × (has_host ≡ false)
        × (start_remote (endpoints_of addr has_host) ≡ err not_a_remote))
      ⊎ ((all : List Serving) × (start_remote (endpoints_of addr has_host) ≡ ok all)
          × ((a : Str) → Memᴰ (listening a) all ↔ ((a ≡ addr) × (addr ≢ [])))
          × ((id : Str)
              → Memᴰ (stream_handler id) all ↔ ((id ≡ dsync_protocol_id) × (has_host ≡ true))))
unfolding start_remote
start_remote_lem [] false = inl (refl, refl, refl)
start_remote_lem [] true = inr (
  stream_handler dsync_protocol_id ∷ [],
  refl,
  λ a. (λ m. absurd (cc (Memᴰ.eq_of_singleton m)), λ (e, given). absurd (given refl)),
  λ id. (λ m. (cc (Memᴰ.eq_of_singleton m), refl), λ (e, given). Memᴰ.head (ap stream_handler e)),
)
start_remote_lem (b ∷ bs) false = inr (
  listening (b ∷ bs) ∷ [],
  refl,
  λ a. (λ m. (cc (Memᴰ.eq_of_singleton m), λ e. cc e), λ (e, given). Memᴰ.head (ap listening e)),
  λ id. (λ m. absurd (cc (Memᴰ.eq_of_singleton m)), λ (e, given). cc given),
)
start_remote_lem (b ∷ bs) true = inr (
  listening (b ∷ bs) ∷ stream_handler dsync_protocol_id ∷ [],
  refl,
  λ a. (
    λ m. elim (Memᴰ.cases_cons m) [
      | inl e ↦ (cc e, λ q. cc q)
      | inr t ↦ absurd (cc (Memᴰ.eq_of_singleton t))
    ],
    λ (e, given). Memᴰ.head (ap listening e),
  ),
  λ id. (
    λ m. elim (Memᴰ.cases_cons m) [
      | inl e ↦ absurd (cc e)
      | inr t ↦ (cc (Memᴰ.eq_of_singleton t), refl)
    ],
    λ (e, given). Memᴰ.tail (Memᴰ.head (ap stream_handler e)),
  ),
)
