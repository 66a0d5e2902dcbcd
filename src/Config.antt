-- ===== src/Config.antt =====
-- config.go: Config.validate, with the singleton of types/dynamic.go that it fills. What validate does
-- not look at (the GC settings, the other options of BadgerDB, the hooks) is `rest`.
pub mod Valid
use omashu.Base.{
  ◌≡◌, ◌≢◌, refl, Bool, true, false, ◌&&◌, Option, none, some, List, [], ◌∷◌, ◌++◌, if◌then◌else◌,
  ◌↔◌, ap, ◌∙◌, subst,
}
use omashu.Base.Bytes.{Bytes}
use omashu.Errors.{
  Error, Result, ok, err, panic, ◌>>=◌, missing_cluster, missing_base_dir, missing_schema_config,
  missing_raft_conf,
}

-- The types of the libraries and of the application, with zap.NewNop.
pub record Libraries : Type 1 where
  pub Cluster : Type 0
  pub RaftConfig : Type 0
  pub FileDescriptorSet : Type 0
  pub Logger : Type 0
  pub Rest : Type 0
  pub nop_logger : Logger

-- A Go string that is one of two names, or neither.
pub data SchemaType : Type 0 where
  json protobuf : SchemaType
  other_type : Bytes → SchemaType

-- "omashu"
abbrev pub default_name : Bytes
default_name = 111 ∷ 109 ∷ 97 ∷ 115 ∷ 104 ∷ 117 ∷ []

-- "/db", the separator and DBSubDir
abbrev pub db_sub_dir : Bytes
db_sub_dir = 47 ∷ 100 ∷ 98 ∷ []

-- ".badger"
abbrev pub logger_suffix : Bytes
logger_suffix = 46 ∷ 98 ∷ 97 ∷ 100 ∷ 103 ∷ 101 ∷ 114 ∷ []

abbrev pub is_empty : Bytes → Bool
is_empty [] = true
is_empty (x ∷ xs) = false

abbrev pub is_nil : {A : Type 0} → Option A → Bool
is_nil none = true
is_nil (some a) = false

-- `if p == nil { return e }`
abbrev pub present : {A : Type 0} → Option A → Error → Result A
present none e = err e
present (some a) e = ok a

-- sync.Once: the first call fills the store, and no later one changes it.
unfoldable pub new_proto_descriptor_store :
    {A : Type 0} → Option (List A) → List A → Option (List A)
new_proto_descriptor_store none set = some set
new_proto_descriptor_store (some store) set = some store

module _ (l : Libraries) where
  open l use {Cluster, RaftConfig, FileDescriptorSet, Logger, Rest, nop_logger}

  pub record SchemaConfig : Type 0 where
    pub type : SchemaType
    pub proto_schema_list : List FileDescriptorSet

  -- A logger of BadgerDB is newLogger's pair of a name and a logger.
  pub record BadgerOptions : Type 0 where
    pub dir : Bytes
    pub in_memory : Bool
    pub logger : Option (Bytes × Logger)

  pub record Config : Type 0 where
    pub name : Bytes
    pub base_dir : Bytes
    pub logger : Option Logger
    pub badger_options : BadgerOptions
    pub raft_config : Option RaftConfig
    pub cluster : Option Cluster
    pub schema_config : Option SchemaConfig
    pub rest : Rest

  abbrev pub check_schema : SchemaType → List FileDescriptorSet → Result (Unit {0})
  check_schema protobuf [] = err missing_schema_config
  check_schema protobuf (x ∷ xs) = ok tt
  check_schema json sets = ok tt
  check_schema (other_type t) sets = ok tt

  abbrev pub check_base_dir : Bytes → Result (Unit {0})
  check_base_dir [] = err missing_base_dir
  check_base_dir (x ∷ xs) = ok tt

  -- The checks before the one for RaftConfig, in their order.
  unfoldable pub first_checks : Option Cluster → Bytes → Option SchemaConfig → Result (Unit {0})
  first_checks cluster base_dir schema = present cluster missing_cluster >>= λ _.
      check_base_dir base_dir >>= λ _.
      present schema missing_schema_config >>= λ s. check_schema s.type s.proto_schema_list

  unfoldable pub register_as :
      SchemaType
      → List FileDescriptorSet
      → Option (List FileDescriptorSet)
      → Option (List FileDescriptorSet)
  unfolding new_proto_descriptor_store
  register_as protobuf sets store = new_proto_descriptor_store store sets
  register_as json sets store = store
  register_as (other_type t) sets store = store

  unfoldable pub registered :
      Option SchemaConfig → Option (List FileDescriptorSet) → Option (List FileDescriptorSet)
  unfolding register_as
  registered none store = store
  registered (some s) store = register_as s.type s.proto_schema_list store

  abbrev pub badger_logger : Bytes → Option Logger → Option (Bytes × Logger)
  badger_logger name none = none
  badger_logger name (some g) = some (name ++ logger_suffix, g)

  abbrev pub or_nop : Option Logger → Logger
  or_nop none = nop_logger
  or_nop (some g) = g

  -- The assignments once every check has passed.
  unfoldable pub with_defaults : Config → Config
  with_defaults c =
      let name = if is_empty c.name then default_name else c.name in
      record c {
        name = name;
        logger = some (or_nop c.logger);
        base_dir = if c.badger_options.in_memory then [] else c.base_dir;
        badger_options = record c.badger_options {
          dir = c.base_dir ++ db_sub_dir;
          logger = badger_logger name c.logger;
        };
      }

  -- What follows the first checks, by their answer and by whether RaftConfig lacks.
  unfoldable pub validated :
      Result (Unit {0})
      → Bool
      → Option (List FileDescriptorSet)
      → Config
      → Result (Unit {0}) × Option (List FileDescriptorSet) × Config
  unfolding with_defaults registered
  validated panic lacks store c = (panic, store, c)
  validated (err e) lacks store c = (err e, store, c)
  validated (ok _) true store c = (err missing_raft_conf, registered c.schema_config store, c)
  validated (ok _) false store c = (ok tt, registered c.schema_config store, with_defaults c)

  -- The answer, the registered schemas and the configuration afterwards.
  unfoldable pub validate :
      Bool
      → Option (List FileDescriptorSet)
      → Config
      → Result (Unit {0}) × Option (List FileDescriptorSet) × Config
  unfolding first_checks validated
  validate distributed store c =
      validated (first_checks c.cluster c.base_dir c.schema_config)
        (distributed && is_nil c.raft_config) store c
