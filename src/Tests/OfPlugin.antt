-- ===== src/Tests/OfPlugin.antt =====
-- The plugin on files that are kept in a map, and the command line beside it.
use mathlib.Core.List.{Nodup-nil}
use dag.Base.{
  zero, suc, ◌≡◌, ◌≢◌, ◌↔◌, ◌⊎◌, inr, refl, sym, ap, ◌∙◌, Str, Str_discrete, bytes, true, false,
  List, [], ◌∷◌, ◌++◌, map, Option, none, some, Error, ok, err, external, Dict, lookup, insert,
  lookup-insert, Memᴰ, Nodup, arith,
}
use dag.Base.Int.{negsuc}
use dag.Manifest.Build.{done, fail}
use dag.Missing.{missing}
use dag.Session.{Session}
use dag.Service.{Settings, Service, Hook, new_receive_session}
use dag.Http.{Reply}
use dag.Http.Server.{Request}
use dag.Tests.Sample.{letters, getter}
use dag.Tests.OfService.{settings, pins, info, wanted, service, lacked_is}
use dag.Plugin.{
  DsyncPlugin, Platform, Daemon, Opened, not_exist, contents, push_pre_check, load_config,
  write_config, allow_addr, deny_addr,
}
use dag.Plugin.Start.{start, start_lem}
use dag.Service.Serving.{listening, not_a_remote}
use dag.Plugin.Checks.{pre_check_lets_all}
use dag.Plugin.Commands.{
  Host, push_handler, silent, written_text, listen_local_commads, acl_handler,
}
use dag.Plugin.Saved.{
  Keeping, Coded, Saved, write_config-Saved, AclCall, allow, deny, after, Allowed,
}
use dag.Plugin.Acl.{acl_lem}
use dag.Plugin.Cli.{
  Fetched, fetched, pulled, pushed, pull_run, push_run, pull_run-does_nothing, push_run-hides_error,
}

-- Strings one after the other, each byte above 0, with a 0 behind each string.
abbrev coded : List Str → Str
coded [] = []
coded (s ∷ rest) = map suc s ++ 0 ∷ coded rest

abbrev decoded : Str → Str → List Str
decoded cur [] = []
decoded cur (zero ∷ raw) = cur ∷ decoded [] raw
decoded cur (suc b ∷ raw) = decoded (cur ++ b ∷ []) raw

concat_assoc : (xs ys zs : Str) → (xs ++ ys) ++ zs ≡ xs ++ (ys ++ zs)
concat_assoc [] ys zs = refl
concat_assoc (x ∷ xs) ys zs = ap (◌∷◌ x) (concat_assoc xs ys zs)

concat_nil : (xs : Str) → xs ++ [] ≡ xs
concat_nil [] = refl
concat_nil (x ∷ xs) = ap (◌∷◌ x) (concat_nil xs)

decoded-coded_first :
    (cur s raw : Str) → decoded cur (map suc s ++ 0 ∷ raw) ≡ (cur ++ s) ∷ decoded [] raw
decoded-coded_first cur [] raw = ap (λ xs. xs ∷ decoded [] raw) (sym (concat_nil cur))
decoded-coded_first cur (b ∷ s) raw =
    decoded-coded_first (cur ++ b ∷ []) s raw
    ∙ ap (λ xs. xs ∷ decoded [] raw) (concat_assoc cur (b ∷ []) s)

decoded-coded : (addrs : List Str) → decoded [] (coded addrs) ≡ addrs
decoded-coded [] = refl
decoded-coded (s ∷ rest) = decoded-coded_first [] s (coded rest) ∙ ap (◌∷◌ s) (decoded-coded rest)

abbrev base : DsyncPlugin
base = record {
  config_path = bytes "/r/dsync.config.json";
  log_level = bytes "info";
  http_commands_addr = bytes "127.0.0.1:2502";
  http_remote_addr = bytes ":2503";
  max_dag_size = negsuc 0;
  allow_addrs = [];
}

abbrev opened : Option Str → Opened
opened none = not_exist
opened (some raw) = contents raw

abbrev computer : Platform
computer = record {
  env = [];
  best_known_path = ok (bytes "/r");
  join = λ dir name. dir ++ bytes "/" ++ name;
  Files = Dict Str Str;
  open_file = λ path files. opened (lookup Str_discrete path files);
  write_file = λ path raw files. (insert Str_discrete path raw files, none);
  marshal_indent = λ p. inr (coded p.allow_addrs);
  unmarshal = λ raw. err (external false raw);
  decode = λ raw. ok (record base { config_path = []; allow_addrs = decoded [] raw });
  text = λ e. [];
}

computer-Keeping : Keeping computer
computer-Keeping path raw before after wrote =
    let files : insert Str_discrete path raw before ≡ after =
      ap (λ (x : Dict Str Str × Option Error). x.0) wrote in
    rw (← files) (ground (arith, lookup-insert Str_discrete path path raw before))

computer-Coded :
    (addrs : List Str)
    → ((a : Str) → Memᴰ a addrs → Unit {0})
    → Coded computer (record base { allow_addrs = addrs })
computer-Coded addrs texts raw wrote =
    let same : coded addrs ≡ raw = cc wrote in rw (← same) (rw (decoded-coded addrs) refl)

abbrev daemon : Daemon computer
daemon = record { plugin = base; files = (bytes "/r/dsync.config.json", []) ∷ [] }

daemon-Saved : Saved computer daemon
unfolding load_config lookup Str_discrete
daemon-Saved q = refl

abbrev calls : List AclCall
calls = allow (bytes "x") ∷ allow (bytes "y") ∷ deny (bytes "x") ∷ []

calls_text : (x : AclCall) → Memᴰ x calls → Unit {0}
calls_text x m = tt

abbrev Here : Str → Type 0
Here b = Memᴰ b daemon.plugin.allow_addrs

acl_lem_example :
    ((a : Str) → Memᴰ a (after computer calls daemon).plugin.allow_addrs ↔ Allowed calls Here a)
    × Nodup (after computer calls daemon).plugin.allow_addrs
    × ((after computer calls daemon).plugin
        ≡ record base { allow_addrs = (after computer calls daemon).plugin.allow_addrs })
    × Saved computer (after computer calls daemon)
unfolding acl_handler allow_addr deny_addr write_config lookup Str_discrete
acl_lem_example =
    acl_lem computer (λ a. Unit) daemon refl computer-Keeping refl computer-Coded daemon-Saved
      Nodup-nil (λ a m. tt) calls calls_text (refl, (refl, (refl, tt)))

abbrev wrote : Daemon computer
wrote = record { plugin = base; files = (bytes "/r/dsync.config.json", []) ∷ [] }

base_written : write_config computer daemon ≡ (wrote, none)
unfolding write_config insert Str_discrete
base_written = refl

write_config-Saved_example : (wrote.plugin ≡ base) × Saved computer wrote
write_config-Saved_example =
    write_config-Saved computer refl computer-Keeping daemon wrote refl
      (computer-Coded [] (λ a m. tt)) base_written

-- A host that refuses what it is asked for.
abbrev refusing : Host
refusing = record {
  new_push = λ cid addr pin. fail (external false (bytes "no"));
  push_do = λ push. none;
  new_pull = λ cid addr. err (external false (bytes "no"));
  pull_do = λ pull. none;
  marshal = λ p. inr [];
  text = λ e. bytes "no";
}

abbrev asked : Str → Request
asked method = record {
  method = method;
  query = (bytes "cid", bytes "a") ∷ (bytes "addr", bytes "b") ∷ (bytes "pin", bytes "true") ∷ [];
  content_type = [];
  body = ok [];
}

abbrev sends : Str → Str → Str → Error ⊎ Fetched
sends body method url = inr (record { code = 200; body = body; cut = none })

pull_answer :
    listen_local_commads computer refusing (bytes "/pull") (asked (bytes "GET")) daemon
    ≡ done (silent, daemon)
unfolding listen_local_commads push_handler Str_discrete
pull_answer = refl

pull_link :
    (reply : Reply) (d' : Daemon computer)
    → listen_local_commads computer refusing (bytes "/pull") (asked (bytes "GET")) daemon
      ≡ done (reply, d')
    → sends [] (bytes "GET") (bytes "u") ≡ fetched reply
pull_link reply d' ran = ap fetched (cc (sym pull_answer ∙ ran))

pull_run-does_nothing_example :
    (listen_local_commads computer refusing (bytes "/pull") (asked (bytes "GET")) daemon
      ≡ done (silent, daemon))
    × (pull_run (sends []) (λ e. []) [] false (bytes "a" ∷ bytes "b" ∷ [])
        ≡ ok (pulled (bytes "a") (bytes "b")))
pull_run-does_nothing_example =
    pull_run-does_nothing (sends []) (λ e. []) [] computer refusing daemon (asked (bytes "GET"))
      (bytes "a") (bytes "b") false refl pull_link

push_answer :
    listen_local_commads computer refusing (bytes "/push") (asked (bytes "POST")) daemon
    ≡ done (written_text (bytes "no"), daemon)
unfolding listen_local_commads push_handler Str_discrete
push_answer = refl

push_link :
    (reply : Reply) (d' : Daemon computer)
    → listen_local_commads computer refusing (bytes "/push") (asked (bytes "POST")) daemon
      ≡ done (reply, d')
    → sends (bytes "no") (bytes "POST") (bytes "u") ≡ fetched reply
push_link reply d' ran = ap fetched (cc (sym push_answer ∙ ran))

push_run-hides_error_example :
    (listen_local_commads computer refusing (bytes "/push") (asked (bytes "POST")) daemon
      ≡ done (written_text (bytes "no"), daemon))
    × (push_run (sends (bytes "no")) (λ e. []) [] false (bytes "a" ∷ bytes "b" ∷ [])
        ≡ ok (pushed (bytes "a") (bytes "b")))
push_run-hides_error_example =
    push_run-hides_error (sends (bytes "no")) (λ e. []) [] computer refusing daemon
      (asked (bytes "POST")) (bytes "a") (bytes "b") false (external false (bytes "no")) refl refl
      push_link

not_bad : bytes "a" ≢ bytes "BadHash"
not_bad e = cc e

checks_base : push_pre_check base info [] ≡ ok (settings.pre_check info [])
unfolding push_pre_check Str_discrete
checks_base = refl

pre_check_lets_all_example :
    ((sess : Session) × (ds' : Service) × (new_receive_session letters getter settings
          (bytes "t")
          info
          true
          []
          service
        ≡ ok (ds', sess)))
    ⊎ ((e : Error) × (new_receive_session letters getter settings (bytes "t") info true [] service
          ≡ err e)
        × (settings.require_all_blocks ≡ false)
        × (missing letters getter wanted ≡ err e))
pre_check_lets_all_example =
    pre_check_lets_all letters getter base settings pins (bytes "t") wanted (bytes "a") info true []
      service checks_base refl refl refl not_bad (λ e. cc (sym e ∙ lacked_is))

abbrev passing : Hook
passing i meta = none

start_lem_example :
    ((base.http_remote_addr ≡ []) × (start none passing pins base ≡ err not_a_remote))
    ⊎ ((c : Settings) × (ds : Service) × (base.http_remote_addr ≢ [])
        × (start none passing pins base ≡ ok ((c, ds), listening base.http_remote_addr ∷ []))
        × (c.pre_check ≡ passing)
        × (c.pin ≡ some pins)
        × (c.allow_removes ≡ false)
        × (ds.session_pool ≡ []))
start_lem_example = start_lem passing pins base
