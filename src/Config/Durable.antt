-- ===== src/Config/Durable.antt =====
-- crates/noire-config/src/lib.rs: what a save leaves in the file system, from the documented
-- behaviour of the file operations.
use noire.Base.{
  ℕ, zero, suc, ◌-◌, ◌≡◌, ◌≢◌, ◌⊎◌, inl, refl, true, false, Option, none, some, Result, ok, is_ok,
  arith,
}
use noire.Base.Text.{String}
use noire.Config.Decode.{ConfigError}
use noire.Config.Store.{Files, temporary, fill, attempts, write_beside, atomic_write}

-- The text that a path names, and what each operation does to it. A rename that fails changes
-- nothing; any other operation that fails may leave anything in the file that it works on.
pub record FilesContract (F : Files) : Type 0 where
  pub content : F.State → String → Option String
  pub read_ok : (s : F.State) (p t : String) → F.read_to_string s p ≡ ok t → content s p ≡ some t
  pub create_dir_keeps :
      (s : F.State) (d q : String) → content (F.create_dir_all s d).0 q ≡ content s q
  pub sync_directory_keeps :
      (s : F.State) (d q : String) → content (F.sync_directory s d).0 q ≡ content s q
  pub create_keeps :
      (s : F.State) (p q : String) → p ≢ q → content (F.create_new s p).0 q ≡ content s q
  pub create_ok :
      (s : F.State) (p : String)
      → is_ok (F.create_new s p).1 ≡ true
      → content (F.create_new s p).0 p ≡ some ""
  pub write_keeps :
      (s : F.State) (p t q : String) → p ≢ q → content (F.write_all s p t).0 q ≡ content s q
  pub write_ok :
      (s : F.State) (p t : String)
      → content s p ≡ some ""
      → is_ok (F.write_all s p t).1 ≡ true
      → content (F.write_all s p t).0 p ≡ some t
  pub flush_keeps : (s : F.State) (p q : String) → content (F.flush s p).0 q ≡ content s q
  pub sync_keeps : (s : F.State) (p q : String) → content (F.sync_all s p).0 q ≡ content s q
  pub rename_ok :
      (s : F.State) (p q : String)
      → is_ok (F.rename s p q).1 ≡ true
      → content (F.rename s p q).0 q ≡ content s p
  pub rename_err :
      (s : F.State) (p q r : String)
      → is_ok (F.rename s p q).1 ≡ false
      → content (F.rename s p q).0 r ≡ content s r
  pub rename_keeps :
      (s : F.State) (p q r : String) → p ≢ r → q ≢ r → content (F.rename s p q).0 r ≡ content s r
  pub remove_keeps :
      (s : F.State) (p q : String) → p ≢ q → content (F.remove_file s p).0 q ≡ content s q

-- No temporary file of the store has this name.
abbrev pub IsPlain : Files → String → Type 0
IsPlain F q = (parent path : String) (n : ℕ) → temporary F parent path n ≢ q

module _ {F : Files} (C : FilesContract F) where
  -- A write that fails keeps the file as it was, and one that succeeds has replaced it.
  abbrev pub Replaces :
      F.State → (path bytes : String) → F.State × Result ConfigError (Unit {0}) → Type 0
  Replaces s path bytes (next, r) =
      ((is_ok r ≡ false) × (C.content next path ≡ C.content s path))
      ⊎ ((is_ok r ≡ true) × (C.content next path ≡ some bytes))

  fill-Replaces :
      (s : F.State) (name path bytes : String)
      → C.content s name ≡ some ""
      → name ≢ path
      → (((is_ok (fill F s name path bytes).1 ≡ false)
            × (C.content (fill F s name path bytes).0 path ≡ C.content s path))
          ⊎ ((is_ok (fill F s name path bytes).1 ≡ true)
              × (C.content (fill F s name path bytes).0 path ≡ some bytes)))
  unfolding fill
  fill-Replaces s name path bytes h n =
      let a = (F.write_all s name bytes).0 in
      let b = (F.flush a name).0 in
      let c = (F.sync_all b name).0 in
      ground (
        arith,
        C.write_keeps s name bytes path n,
        C.write_ok s name bytes h,
        C.flush_keeps a name path,
        C.flush_keeps a name name,
        C.sync_keeps b name path,
        C.sync_keeps b name name,
        C.rename_ok c name path,
        C.rename_err c name path path,
      )

  fill-keeps :
      (s : F.State) (name path bytes q : String)
      → name ≢ q
      → path ≢ q
      → C.content (fill F s name path bytes).0 q ≡ C.content s q
  unfolding fill
  fill-keeps s name path bytes q n m =
      let a = (F.write_all s name bytes).0 in
      let b = (F.flush a name).0 in
      let c = (F.sync_all b name).0 in
      ground (
        arith,
        C.write_keeps s name bytes q n,
        C.flush_keeps a name q,
        C.sync_keeps b name q,
        C.rename_keeps c name path q n m,
      )

  attempts-Replaces :
      (left : ℕ) (s : F.State) (parent path bytes : String)
      → IsPlain F path
      → Replaces s path bytes (attempts F left s parent path bytes)
  unfolding attempts
  attempts-Replaces zero s parent path bytes h = inl (refl, refl)
  attempts-Replaces (suc left) s parent path bytes h =
      let name = temporary F parent path (15 - left) in
      let made = F.create_new s name in
      let n = h parent path (15 - left) in
      ground (
        arith,
        attempts-Replaces left made.0 parent path bytes h,
        C.create_keeps s name path n,
        C.create_ok s name,
        fill-Replaces made.0 name path bytes,
        n,
        C.remove_keeps (fill F made.0 name path bytes).0 name path n,
      )

  attempts-keeps :
      (left : ℕ) (s : F.State) (parent path bytes q : String)
      → IsPlain F q
      → path ≢ q
      → C.content (attempts F left s parent path bytes).0 q ≡ C.content s q
  unfolding attempts
  attempts-keeps zero s parent path bytes q h m = refl
  attempts-keeps (suc left) s parent path bytes q h m =
      let name = temporary F parent path (15 - left) in
      let made = F.create_new s name in
      let n = h parent path (15 - left) in
      ground (
        arith,
        attempts-keeps left made.0 parent path bytes q h m,
        C.create_keeps s name q n,
        fill-keeps made.0 name path bytes q n m,
        C.remove_keeps (fill F made.0 name path bytes).0 name q n,
      )

  write_beside-Replaces :
      (parent : Option String) (s : F.State) (path bytes : String)
      → IsPlain F path
      → Replaces s path bytes (write_beside F parent s path bytes)
  unfolding write_beside
  write_beside-Replaces none s path bytes h = inl (refl, refl)
  write_beside-Replaces (some parent) s path bytes h = attempts-Replaces 16 s parent path bytes h

  pub atomic_write-Replaces :
      (s : F.State) (path bytes : String)
      → IsPlain F path
      → Replaces s path bytes (atomic_write F s path bytes)
  unfolding atomic_write
  atomic_write-Replaces s path bytes h = write_beside-Replaces (F.parent path) s path bytes h

  write_beside-keeps :
      (parent : Option String) (s : F.State) (path bytes q : String)
      → IsPlain F q
      → path ≢ q
      → C.content (write_beside F parent s path bytes).0 q ≡ C.content s q
  unfolding write_beside
  write_beside-keeps none s path bytes q h m = refl
  write_beside-keeps (some parent) s path bytes q h m = attempts-keeps 16 s parent path bytes q h m

  pub atomic_write-keeps :
      (s : F.State) (path bytes q : String)
      → IsPlain F q
      → path ≢ q
      → C.content (atomic_write F s path bytes).0 q ≡ C.content s q
  unfolding atomic_write
  atomic_write-keeps s path bytes q h m = write_beside-keeps (F.parent path) s path bytes q h m
