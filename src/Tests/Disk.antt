-- ===== src/Tests/Disk.antt =====
-- A small file system, a function from paths to texts whose temporary files are all in one place,
-- and a small format that only writes the defaults.
use noire.Base.{
  ℕ, ◌≡◌, ◌≢◌, inl, inr, refl, ◌∙◌, Bool, true, false, not, ◌&&◌, Option, none, some, Result, ok,
  err, is_ok, if◌then◌else◌, ◌==◌, arith, Bool-cases,
}
use noire.Base.Text.{String, str_eq, eq_iff, is_empty}
use noire.Config.Types.{
  Config, default, ChannelSelection, auto, LatencyProfile, low, FailMode, closed, LogLevel, info,
}
use noire.Config.Check.{is_follow_default, is_empty-nil}
use noire.Config.Decode.{Toml, pos, IoError, ErrorKind, not_found, already_exists}
use noire.Config.Store.{Files, ConfigPaths}
use noire.Config.Durable.{FilesContract, IsPlain}
use noire.Config.Load.{TomlContract}

abbrev pub Texts : Type 0
Texts = String → Option String

abbrev pub put : Texts → String → Option String → Texts
put s p v q = if str_eq p q then v else s q

pub put_same : (s : Texts) (p : String) (v : Option String) → put s p v p ≡ v
put_same s p v = ground (arith, (eq_iff p p).1 refl)

pub put_other :
    (s : Texts) (p : String) (v : Option String) (q : String) → p ≢ q → put s p v q ≡ s q
put_other s p v q n = elim (Bool-cases (str_eq p q)) [
  | inl same ↦ elim (n ((eq_iff p q).0 same)) [ ]
  | inr other ↦ ground arith
]

abbrev pub failure : ErrorKind → IoError
failure kind = record { kind = kind; text = "" }

abbrev pub read_option : Option String → Result IoError String
read_option none = err (failure not_found)
read_option (some t) = ok t

abbrev pub create_option : Texts → String → Option String → Texts × Result IoError (Unit {0})
create_option s p none = (put s p (some ""), ok tt)
create_option s p (some t) = (s, err (failure already_exists))

abbrev pub files : Files
files = record {
  State = Texts;
  parent = λ p. some "/etc";
  file_name = λ p. p;
  join = λ p n. "/etc/temporary";
  process_id = 7;
  read_to_string = λ s p. read_option (s p);
  create_dir_all = λ s d. (s, ok tt);
  create_new = λ s p. create_option s p (s p);
  flush = λ s p. (s, ok tt);
  sync_all = λ s p. (s, ok tt);
  remove_file = λ s p. (put s p none, ok tt);
  sync_directory = λ s d. (s, ok tt);
  write_all = λ s p t. (put s p (some t), ok tt);
  rename = λ s p q. (put (put s p none) q (s p), ok tt);
}

pub read_option-some : (v : Option String) (t : String) → read_option v ≡ ok t → v ≡ some t
read_option-some v t h = ground arith

pub create_option_keeps :
    (s : Texts) (p : String) (v : Option String) (q : String)
    → p ≢ q
    → (create_option s p v).0 q ≡ s q
create_option_keeps s p none q n = put_other s p (some "") q n
create_option_keeps s p (some t) q n = refl

pub create_option_ok :
    (s : Texts) (p : String) (v : Option String)
    → is_ok (create_option s p v).1 ≡ true
    → (create_option s p v).0 p ≡ some ""
create_option_ok s p none h = put_same s p (some "")
create_option_ok s p (some t) h = cc

pub files_contract : FilesContract files
files_contract = record {
  content = λ s p. s p;
  read_ok = λ s p t h. read_option-some (s p) t h;
  create_dir_keeps = λ s d q. refl;
  sync_directory_keeps = λ s d q. refl;
  create_keeps = λ s p q n. create_option_keeps s p (s p) q n;
  create_ok = λ s p h. create_option_ok s p (s p) h;
  write_keeps = λ s p t q n. put_other s p (some t) q n;
  write_ok = λ s p t h k. put_same s p (some t);
  flush_keeps = λ s p q. refl;
  sync_keeps = λ s p q. refl;
  rename_ok = λ s p q h. put_same (put s p none) q (s p);
  rename_err = λ s p q r h. cc;
  rename_keeps = λ s p q r n m. put_other (put s p none) q (s p) r m ∙ put_other s p none r n;
  remove_keeps = λ s p q n. put_other s p none q n;
}

abbrev pub is_auto : ChannelSelection → Bool
is_auto auto = true
is_auto _ = false

abbrev pub is_low : LatencyProfile → Bool
is_low low = true
is_low _ = false

abbrev pub is_closed : FailMode → Bool
is_closed closed = true
is_closed _ = false

abbrev pub is_info : LogLevel → Bool
is_info info = true
is_info _ = false

abbrev pub is_default : Config → Bool
is_default c =
    c.schema_version == 1
    && not c.active
    && not c.start_with_noise_reduction
    && not c.launch_at_login
    && is_follow_default c.input.mode
    && is_empty c.input.stable_id
    && is_auto c.input.channel
    && not c.input.fallback_to_default
    && is_low c.output.latency_profile
    && c.suppression.enabled
    && c.suppression.strength == 0x3fe1_9999_9999_999a
    && is_closed c.suppression.fail_mode
    && is_info c.diagnostics.log_level
    && c.diagnostics.metering

pub is_default-default : (c : Config) → is_default c ≡ true → c ≡ default
is_default-default c h = ground (arith, is_empty-nil c.input.stable_id)

abbrev pub toml : Toml
toml = record {
  Value = ℕ;
  document = λ t. if str_eq t "v1" then ok 1 else if str_eq t "v2" then ok 2 else err "syntax";
  get = λ v key. some v;
  as_integer = λ v. some (pos v);
  read_legacy = λ t. err "syntax";
  read_config = λ t. if str_eq t "v1" then ok default else err "syntax";
  print = λ c. if is_default c then ok "v1" else err "not written";
}

pub print_text : (c : Config) (t : String) → toml.print c ≡ ok t → (t ≡ "v1") × (c ≡ default)
print_text c t h = ground (arith, is_default-default c)

pub toml_contract : TomlContract toml
toml_contract = record {
  printed_document = λ c t h. let (e, q) = print_text c t h in (1, rw e refl, rw q refl);
  printed_config = λ c t h. let (e, q) = print_text c t h in rw (e, q) refl;
}

abbrev pub paths : ConfigPaths
paths = record { path = "/etc/config.toml"; backup_path = "/etc/config.toml.bak" }

pub paths_differ : paths.path ≢ paths.backup_path
paths_differ e = ground (arith, (eq_iff paths.path paths.backup_path).1 e)

pub IsPlain-path : IsPlain files paths.path
IsPlain-path parent path n e = ground (arith, (eq_iff "/etc/temporary" paths.path).1 e)

pub IsPlain-backup : IsPlain files paths.backup_path
IsPlain-backup parent path n e = ground (arith, (eq_iff "/etc/temporary" paths.backup_path).1 e)

abbrev pub empty_disk : Texts
empty_disk p = none
