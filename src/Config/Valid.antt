-- ===== src/Config/Valid.antt =====
-- Config.validate: what it accepts, and what it leaves of an in-memory configuration.
use omashu.Base.{
  ◌≡◌, ◌≢◌, refl, Bool, true, false, ◌&&◌, Option, none, some, List, [], ◌∷◌, ◌++◌, ◌↔◌, ap, ◌∙◌,
  subst,
}
use omashu.Base.Bytes.{Bytes}
use omashu.Errors.{Error, Result, ok, err, panic, missing_base_dir}
use omashu.Config.{
  Libraries, SchemaType, json, protobuf, other_type, db_sub_dir, is_nil, SchemaConfig, Config,
  check_schema, first_checks, validated, validate, with_defaults,
}

panic-ne-ok : {A : Type 0} {a : A} → panic ≢ ok a
panic-ne-ok e = cc

err-ne-ok : {A : Type 0} {x : Error} {a : A} → err x ≢ ok a
err-ne-ok e = cc

module _ (l : Libraries) where
  open l use {Cluster, RaftConfig, FileDescriptorSet}

  -- What a configuration has to have: a Protobuf schema type has at least one schema.
  pub record Complete (distributed : Bool) (c : Config l) : Type 0 where
    pub cluster_set : c.cluster ≢ none
    pub base_dir_set : c.base_dir ≢ []
    pub schema_set :
        (s : SchemaConfig l) × (c.schema_config ≡ some s)
        × (s.type ≡ protobuf → s.proto_schema_list ≢ [])
    pub raft_set : distributed ≡ true → c.raft_config ≢ none

  check_schema-ok_iff :
      (t : SchemaType) (sets : List FileDescriptorSet)
      → (check_schema l t sets ≡ ok tt) ↔ (t ≡ protobuf → sets ≢ [])
  check_schema-ok_iff protobuf [] = (λ e. cc, λ h. absurd (h refl refl))
  check_schema-ok_iff protobuf (x ∷ xs) = (λ e t n. cc, λ h. refl)
  check_schema-ok_iff json sets = (λ e t. cc, λ h. refl)
  check_schema-ok_iff (other_type u) sets = (λ e t. cc, λ h. refl)

  Checked : Option Cluster → Bytes → Option (SchemaConfig l) → Type 0
  Checked cluster base_dir schema =
      (cluster ≢ none)
      × (base_dir ≢ [])
      × ((s : SchemaConfig l) × (schema ≡ some s) × (s.type ≡ protobuf → s.proto_schema_list ≢ []))

  first_checks-ok_iff :
      (cluster : Option Cluster) (base_dir : Bytes) (schema : Option (SchemaConfig l))
      → (first_checks l cluster base_dir schema ≡ ok tt) ↔ Checked cluster base_dir schema
  unfolding first_checks Checked
  first_checks-ok_iff none b schema = (λ e. cc, λ h. absurd (h.0 refl))
  first_checks-ok_iff (some k) [] schema = (λ e. cc, λ h. absurd (h.1 refl))
  first_checks-ok_iff (some k) (x ∷ xs) none = (λ e. cc, λ (_, _, (s, e, _)). cc)
  first_checks-ok_iff (some k) (x ∷ xs) (some s) = (
    λ e. (λ n. cc, λ n. cc, (s, refl, (check_schema-ok_iff s.type s.proto_schema_list).0 e)),
    λ (_, _, (t, e, h)).
        let same : s ≡ t = cc in (check_schema-ok_iff s.type s.proto_schema_list).1 (rw same h),
  )

  raft_set_iff :
      (distributed : Bool) (r : Option RaftConfig)
      → ((distributed && is_nil r) ≡ false) ↔ (distributed ≡ true → r ≢ none)
  raft_set_iff true none = (λ e. cc, λ h. absurd (h refl refl))
  raft_set_iff true (some r) = (λ e t n. cc, λ h. refl)
  raft_set_iff false r = (λ e t. cc, λ h. refl)

  validated-ok_iff :
      (first : Result (Unit {0})) (lacks : Bool) (store : Option (List FileDescriptorSet))
      (c : Config l)
      → ((validated l first lacks store c).0 ≡ ok tt) ↔ ((first ≡ ok tt) × (lacks ≡ false))
  unfolding validated
  validated-ok_iff panic lacks store c = (λ e. cc, λ h. cc)
  validated-ok_iff (err e) lacks store c = (λ e. cc, λ h. cc)
  validated-ok_iff (ok _) true store c = (λ e. cc, λ h. cc)
  validated-ok_iff (ok _) false store c = (λ e. (refl, refl), λ h. refl)

  -- Validation succeeds exactly when a cluster and a base directory are set, a schema is set that has
  -- a message description if it is Protobuf, and a distributed store has its Raft settings.
  pub validate-ok_iff :
      (distributed : Bool) (store : Option (List FileDescriptorSet)) (c : Config l)
      → ((validate l distributed store c).0 ≡ ok tt) ↔ Complete distributed c
  unfolding validate Checked
  validate-ok_iff distributed store c =
      let first = first_checks-ok_iff c.cluster c.base_dir c.schema_config in
      let last = raft_set_iff distributed c.raft_config in
      let both =
        validated-ok_iff (first_checks l c.cluster c.base_dir c.schema_config)
          (distributed && is_nil c.raft_config) store c in
      (
        λ e.
            let (cluster, base_dir, schema) = first.0 (both.0 e).0 in
            record {
              cluster_set = cluster;
              base_dir_set = base_dir;
              schema_set = schema;
              raft_set = last.0 (both.0 e).1;
            },
        λ h. both.1 (first.1 (h.cluster_set, h.base_dir_set, h.schema_set), last.1 h.raft_set),
      )

  validated-ok :
      (first : Result (Unit {0})) (lacks : Bool) (store store' : Option (List FileDescriptorSet))
      (c after : Config l)
      → validated l first lacks store c ≡ (ok tt, store', after)
      → (first ≡ ok tt) × (with_defaults l c ≡ after)
  unfolding validated
  validated-ok panic lacks store store' c after e = absurd (panic-ne-ok (ap (λ r. r.0) e))
  validated-ok (err x) lacks store store' c after e = absurd (err-ne-ok (ap (λ r. r.0) e))
  validated-ok (ok _) true store store' c after e = absurd (err-ne-ok (ap (λ r. r.0) e))
  validated-ok (ok _) false store store' c after e = (refl, ap (λ r. r.2) e)

  no_base_dir :
      (cluster : Option Cluster) (schema : Option (SchemaConfig l))
      → cluster ≢ none
      → first_checks l cluster [] schema ≡ err missing_base_dir
  unfolding first_checks
  no_base_dir none schema h = absurd (h refl)
  no_base_dir (some k) schema h = refl

  refused_again :
      (distributed : Bool) (store : Option (List FileDescriptorSet)) (c : Config l)
      → c.cluster ≢ none
      → c.base_dir ≡ []
      → validate l distributed store c ≡ (err missing_base_dir, store, c)
  unfolding validate validated
  refused_again distributed store c cluster empty =
      ap (λ first. validated l first (distributed && is_nil c.raft_config) store c)
        (ap (λ b. first_checks l c.cluster b c.schema_config) empty
          ∙ no_base_dir c.cluster c.schema_config cluster)

  base_dir-with_defaults :
      (c : Config l) → c.badger_options.in_memory ≡ true → (with_defaults l c).base_dir ≡ []
  unfolding with_defaults
  base_dir-with_defaults c mem = rw mem refl

  -- A configuration that is validated for an in-memory database, and with success, keeps a database
  -- directory below its old base directory, loses the base directory, and is refused for the lack of
  -- one when it is validated again.
  pub in_memory_once :
      (distributed : Bool) (store store' : Option (List FileDescriptorSet)) (c after : Config l)
      → c.badger_options.in_memory ≡ true
      → validate l distributed store c ≡ (ok tt, store', after)
      → (after.badger_options.dir ≡ c.base_dir ++ db_sub_dir)
        × (validate l distributed store' after ≡ (err missing_base_dir, store', after))
  unfolding validate Checked with_defaults
  in_memory_once distributed store store' c after mem e =
      let (first, is_after) =
        validated-ok (first_checks l c.cluster c.base_dir c.schema_config)
          (distributed && is_nil c.raft_config) store store' c after e in
      let (cluster, _, _) = (first_checks-ok_iff c.cluster c.base_dir c.schema_config).0 first in
      subst
        (λ (d : Config l).
          (d.badger_options.dir ≡ c.base_dir ++ db_sub_dir)
          × (validate l distributed store' d ≡ (err missing_base_dir, store', d)))
        is_after
        (
          refl,
          refused_again distributed store' (with_defaults l c) cluster
              (base_dir-with_defaults c mem),
        )
