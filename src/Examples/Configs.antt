-- ===== src/Examples/Configs.antt =====
-- Configurations of config.go, validated.
use omashu.Base.{ℕ, ◌≡◌, refl, Bool, true, false, none, some, [], ◌∷◌, ◌↔◌}
use omashu.Errors.{ok, err, missing_raft_conf}
use omashu.Config.{register_as, Libraries, Config, protobuf, validate, with_defaults}
use omashu.Config.Valid.{Complete, validate-ok_iff}

abbrev numbers : Libraries
numbers = record {
  Cluster = ℕ;
  RaftConfig = ℕ;
  FileDescriptorSet = ℕ;
  Logger = ℕ;
  Rest = ℕ;
  nop_logger = 0;
}

abbrev configured : Bool → Config numbers
configured in_memory = record {
  name = [];
  base_dir = 47 ∷ 116 ∷ [];
  logger = some 5;
  badger_options = record { dir = []; in_memory = in_memory; logger = none };
  raft_config = none;
  cluster = some 1;
  schema_config = some (record { type = protobuf; proto_schema_list = 8 ∷ [] });
  rest = 0;
}

-- Without its Raft settings the schemas are registered all the same.
no_raft_registers :
    validate numbers true none (configured false)
    ≡ (err missing_raft_conf, some (8 ∷ []), configured false)
unfolding validate register_as
no_raft_registers = refl

validate-ok_iff_example :
    ((validate numbers false none (configured false)).0 ≡ ok tt)
    ↔ Complete numbers false (configured false)
validate-ok_iff_example = validate-ok_iff numbers false none (configured false)

in_memory_validated :
    validate numbers false none (configured true)
    ≡ (ok tt, some (8 ∷ []), with_defaults numbers (configured true))
unfolding validate register_as
in_memory_validated = refl
