-- ===== src/Plugin/Acl.antt =====
-- dsync/dsync_ipfs_plugin/plugin.go: the allow list over many requests, in memory and on disk.
use dag.Base.{
  ◌≡◌, ◌≢◌, ◌↔◌, ◌⊎◌, inl, inr, refl, sym, ap, ◌∙◌, subst, Str, Str_discrete, List, [], ◌∷◌, ◌++◌,
  Option, none, Error, ok, Memᴰ, Memᴰ-concat, Mem-Memᴰ, Nodup, Nodup-concat, Bool-cases,
  Option-cases,
}
use dag.Plugin.{
  DsyncPlugin, Platform, Daemon, listed, without, config_path_of, write_config, with_addrs,
  allow_addr, deny_addr,
}
use dag.Plugin.Commands.{acl_handler}
use dag.Plugin.Access.{listed-Memᴰ, listed-not_Memᴰ, without-none, without-Removed}
use dag.Plugin.Saved.{
  Keeping, Coded, Saved, write_config-Saved, AclCall, allow, deny, request_of, subject, after,
  Served, Allowed, Allowed-iff, served_call, acl_handler-allow, acl_handler-deny,
}

Allowed-cons :
    (x : AclCall) (calls : List AclCall) (P Q : Str → Type 0) (a : Str)
    → ((b : Str) → Q b ↔ Allowed (x ∷ []) P b)
    → Allowed calls Q a ↔ Allowed (x ∷ calls) P a
Allowed-cons (allow addr) calls P Q a same = Allowed-iff calls Q (λ b. (b ≡ addr) ⊎ P b) a same
Allowed-cons (deny addr) calls P Q a same = Allowed-iff calls Q (λ b. (b ≢ addr) × P b) a same

module _ (pf : Platform) (unset : pf.env ≡ []) (keeping : Keeping pf) (Text : Str → Type 0)
    (p : DsyncPlugin) (located : config_path_of pf ≡ ok p.config_path)
    (coded : (addrs : List Str)
      → ((a : Str) → Memᴰ a addrs → Text a)
      → Coded pf (record p { allow_addrs = addrs })) where
  -- A daemon that differs from the first in its list and its files at most.
  pub record Fine (d : Daemon pf) : Type 0 where
    pub same : d.plugin ≡ record p { allow_addrs = d.plugin.allow_addrs }
    pub once : Nodup d.plugin.allow_addrs
    pub texts : (a : Str) → Memᴰ a d.plugin.allow_addrs → Text a
    pub saved : Saved pf d

  Fine-written :
      (d d' : Daemon pf) (addrs : List Str)
      → Fine d
      → Nodup addrs
      → ((a : Str) → Memᴰ a addrs → Text a)
      → write_config pf (with_addrs pf d addrs) ≡ (d', none)
      → Fine d' × (d'.plugin.allow_addrs ≡ addrs)
  Fine-written d d' addrs fine once texts ran =
      let next : record d.plugin { allow_addrs = addrs } ≡ record p { allow_addrs = addrs } =
        ap (λ (x : DsyncPlugin). record x { allow_addrs = addrs }) fine.same in
      let path : config_path_of pf ≡ ok d.plugin.config_path =
        located ∙ ap (λ (x : DsyncPlugin). ok x.config_path) (sym fine.same) in
      let (is, saved) =
        write_config-Saved pf unset keeping (with_addrs pf d addrs) d' path
          (subst (Coded pf) (sym next) (coded addrs texts)) ran in
      let list : d'.plugin.allow_addrs ≡ addrs = ap (λ (x : DsyncPlugin). x.allow_addrs) is in
      (
        record {
          same = is ∙ next ∙ ap (λ xs. record p { allow_addrs = xs }) (sym list);
          once = rw list once;
          texts = rw list texts;
          saved = saved;
        },
        list,
      )

  -- A fine daemon whose list has the addresses of a set.
  abbrev pub Lists : (Str → Type 0) → Daemon pf → Type 0
  Lists In d = Fine d × ((a : Str) → Memᴰ a d.plugin.allow_addrs ↔ In a)

  allow_addr-Fine :
      (addr : Str) (d d' : Daemon pf)
      → Fine d
      → Text addr
      → allow_addr pf addr d ≡ (d', none)
      → Lists (λ a. (a ≡ addr) ⊎ Memᴰ a d.plugin.allow_addrs) d'
  unfolding allow_addr
  allow_addr-Fine addr d d' fine text ran = elim (Bool-cases (listed addr d.plugin.allow_addrs)) [
    | inl old ↦
        let still : d ≡ d' =
          ap (λ (x : Daemon pf × Option Error). x.0) (rw (old, allow_addr) at ran) in
        subst (Lists (λ a. (a ≡ addr) ⊎ Memᴰ a d.plugin.allow_addrs)) still (
          fine,
          λ a. (
            inr,
            λ h. elim h [ inl e ↦ rw e (listed-Memᴰ addr d.plugin.allow_addrs old) | inr m ↦ m ],
          ),
        )
    | inr new ↦
        let absent = listed-not_Memᴰ addr d.plugin.allow_addrs new in
        let (fine', list) =
          Fine-written d d' (d.plugin.allow_addrs ++ addr ∷ []) fine
            (Nodup-concat d.plugin.allow_addrs addr fine.once
              (λ m. absent (Mem-Memᴰ Str_discrete m)))
            (λ a m. elim ((Memᴰ-concat a addr d.plugin.allow_addrs).0 m) [
              | inl old ↦ fine.texts a old
              | inr e ↦ rw e text
            ])
            (rw (new, allow_addr) at ran) in
        (
          fine',
          λ a. rw list (
            λ m. elim ((Memᴰ-concat a addr d.plugin.allow_addrs).0 m) [
              | inl old ↦ inr old
              | inr e ↦ inl e
            ],
            λ h. elim h [
              | inl e ↦ (Memᴰ-concat a addr d.plugin.allow_addrs).1 (inr e)
              | inr old ↦ (Memᴰ-concat a addr d.plugin.allow_addrs).1 (inl old)
            ],
          ),
        )
  ]

  deny_addr-Fine :
      (addr : Str) (d d' : Daemon pf)
      → Fine d
      → deny_addr pf addr d ≡ (d', none)
      → Lists (λ a. (a ≢ addr) × Memᴰ a d.plugin.allow_addrs) d'
  unfolding deny_addr
  deny_addr-Fine addr d d' fine ran = elim (Option-cases (without addr d.plugin.allow_addrs)) [
    | inl lost ↦
        let still : d ≡ d' =
          ap (λ (x : Daemon pf × Option Error). x.0) (rw (lost, deny_addr) at ran) in
        let absent = without-none addr d.plugin.allow_addrs lost in
        subst (Lists (λ a. (a ≢ addr) × Memᴰ a d.plugin.allow_addrs)) still
          (fine, λ a. (λ m. ((λ e. absent (rw (← e) m)), m), λ h. h.1))
    | inr (rest, found) ↦
        let r = without-Removed addr d.plugin.allow_addrs rest found fine.once in
        let (fine', list) =
          Fine-written d d' rest fine r.once (λ a m. fine.texts a ((r.members a).0 m).1)
            (rw (found, deny_addr) at ran) in
        (fine', λ a. rw list (r.members a))
  ]

  -- One request that is answered with the code 200.
  call-Lists :
      (x : AclCall) (d : Daemon pf)
      → Fine d
      → Text (subject x)
      → (acl_handler pf (request_of x) d).0.code ≡ 200
      → Lists
          (Allowed (x ∷ []) (λ a. Memᴰ a d.plugin.allow_addrs))
          (acl_handler pf (request_of x) d).1
  call-Lists (allow addr) d fine text served =
      let ran = allow_addr pf addr d in
      let answers = acl_handler-allow pf addr d in
      let (calm, end) = served_call pf ran (rw answers at served) in
      rw answers (rw end (allow_addr-Fine addr d ran.0 fine text calm))
  call-Lists (deny addr) d fine text served =
      let ran = deny_addr pf addr d in
      let answers = acl_handler-deny pf addr d in
      let (calm, end) = served_call pf ran (rw answers at served) in
      rw answers (rw end (deny_addr-Fine addr d ran.0 fine calm))

  calls-Lists :
      (calls : List AclCall) (d : Daemon pf)
      → Fine d
      → ((x : AclCall) → Memᴰ x calls → Text (subject x))
      → Served pf calls d
      → Lists (Allowed calls (λ a. Memᴰ a d.plugin.allow_addrs)) (after pf calls d)
  calls-Lists [] d fine texts served = (fine, λ a. (λ m. m, λ m. m))
  calls-Lists (x ∷ calls) d fine texts (first_served, later_served) =
      let next = (acl_handler pf (request_of x) d).1 in
      let (fine', one) = call-Lists x d fine (texts x (Memᴰ.head refl)) first_served in
      let (end, all) = calls-Lists calls next fine' (λ y m. texts y (Memᴰ.tail m)) later_served in
      (
        end,
        λ a.
            let (onward, back) =
              Allowed-cons x calls (λ b. Memᴰ b d.plugin.allow_addrs)
                (λ b. Memᴰ b next.plugin.allow_addrs) a one in
            (λ m. onward ((all a).0 m), λ h. (all a).1 (back h)),
      )

-- DSYNC_CONFIG is not set, the file is where the plugin keeps its path, a file that was written
-- reads as written, and the codec gives the plugin's exported fields back for any list of texts.
-- The plugin's configuration is saved, its list names no address twice, and all addresses are
-- texts. Requests to allow and to deny addresses are served one after the other, each with the
-- code 200. Then the list has exactly the addresses that the requests leave allowed in their
-- order, each once, the other fields of the plugin are as they were, and the configuration is
-- saved: LoadConfig of any process returns the plugin.
pub acl_lem :
    (pf : Platform) (Text : Str → Type 0) (d : Daemon pf)
    → pf.env ≡ []
    → Keeping pf
    → config_path_of pf ≡ ok d.plugin.config_path
    → ((addrs : List Str)
        → ((a : Str) → Memᴰ a addrs → Text a)
        → Coded pf (record d.plugin { allow_addrs = addrs }))
    → Saved pf d
    → Nodup d.plugin.allow_addrs
    → ((a : Str) → Memᴰ a d.plugin.allow_addrs → Text a)
    → (calls : List AclCall) → ((x : AclCall) → Memᴰ x calls → Text (subject x))
    → Served pf calls d
    → ((a : Str)
        → Memᴰ a (after pf calls d).plugin.allow_addrs
          ↔ Allowed calls (λ b. Memᴰ b d.plugin.allow_addrs) a)
      × Nodup (after pf calls d).plugin.allow_addrs
      × ((after pf calls d).plugin
          ≡ record d.plugin { allow_addrs = (after pf calls d).plugin.allow_addrs })
      × Saved pf (after pf calls d)
acl_lem pf Text d unset keeping located coded saved once texts calls more served =
    let (fine, all) =
      calls-Lists pf unset keeping Text d.plugin located coded calls d
        (record { same = refl; once = once; texts = texts; saved = saved }) more served in
    (all, fine.once, fine.same, fine.saved)
