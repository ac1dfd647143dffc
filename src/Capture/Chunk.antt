-- ===== src/Capture/Chunk.antt =====
-- crates/noire-pipewire/src/capture.rs: the bytes of a chunk and the samples in them.
use mathlib.Core.Path.{ap₂}
use noire.Base.{
  ℕ, ◌+◌, ◌-◌, ◌*◌, ◌/◌, ◌%◌, ◌≤◌, ◌<◌, ◌≡◌, ◌⊎◌, refl, true, false, List, [], ◌∷◌, ◌++◌, none,
  some, arith, leb, length, take, drop, All, length-take, length-drop,
}
use noire.Dsp.Canonical.{Sample, max_callback_frames}
use noire.Capture.{ChunkMetadata, get_range, decode}

-- The bytes of a sample in memory, the lowest first.
abbrev pub encode_sample : Sample → List ℕ
encode_sample x = x % 256 ∷ x / 256 % 256 ∷ x / 65536 % 256 ∷ x / 16777216 % 256 ∷ []

abbrev pub encode : List Sample → List ℕ
encode [] = []
encode (x ∷ xs) = encode_sample x ++ encode xs

abbrev pub IsWord : ℕ → Type 0
IsWord x = x < 0x1_0000_0000

word_bytes :
    (x : ℕ)
    → IsWord x
    → x % 256 + 256 * (x / 256 % 256 + 256 * (x / 65536 % 256 + 256 * (x / 16777216 % 256))) ≡ x
word_bytes x h = omega arith

pub decode-encode : (xs : List Sample) → All IsWord xs → decode (encode xs) ≡ xs
unfolding decode
decode-encode [] h = refl
decode-encode (x ∷ xs) h = ap₂ ◌∷◌ (word_bytes x h.0) (decode-encode xs h.1)

pub length-encode : (xs : List Sample) → length (encode xs) ≡ 4 * length xs
length-encode [] = refl
length-encode (x ∷ xs) = omega (arith, length-encode xs)

pub length-decode : (bytes : List ℕ) → length (decode bytes) ≡ length bytes / 4
unfolding decode
length-decode [] = refl
length-decode (a ∷ []) = refl
length-decode (a ∷ b ∷ []) = refl
length-decode (a ∷ b ∷ c ∷ []) = refl
length-decode (a ∷ b ∷ c ∷ d ∷ rest) = omega (arith, length-decode rest)

-- The bytes that the metadata names.
abbrev pub region : List ℕ → ChunkMetadata → List ℕ
region bytes m = take m.size_bytes (drop m.offset_bytes bytes)

pub length-region :
    (bytes : List ℕ) (m : ChunkMetadata)
    → m.offset_bytes + m.size_bytes ≤ length bytes
    → length (region bytes m) ≡ m.size_bytes
length-region bytes m h =
    omega (
      arith,
      length-take m.size_bytes (drop m.offset_bytes bytes),
      length-drop m.offset_bytes bytes,
    )

minus_offset : (a b : ℕ) → a + b - a ≡ b
minus_offset a b = omega arith

pub get_range_inside :
    (bytes : List ℕ) (m : ChunkMetadata)
    → m.offset_bytes + m.size_bytes ≤ length bytes
    → get_range bytes m.offset_bytes (m.offset_bytes + m.size_bytes) ≡ some (region bytes m)
unfolding get_range
get_range_inside bytes m h =
    let a : leb m.offset_bytes (m.offset_bytes + m.size_bytes) ≡ true = ground arith in
    let b : leb (m.offset_bytes + m.size_bytes) (length bytes) ≡ true = ground arith in
    simp (a, b, minus_offset m.offset_bytes m.size_bytes)

pub get_range_outside :
    (bytes : List ℕ) (m : ChunkMetadata)
    → length bytes < m.offset_bytes + m.size_bytes
    → get_range bytes m.offset_bytes (m.offset_bytes + m.size_bytes) ≡ none
unfolding get_range
get_range_outside bytes m h =
    let a : leb m.offset_bytes (m.offset_bytes + m.size_bytes) ≡ true = ground arith in
    let b : leb (m.offset_bytes + m.size_bytes) (length bytes) ≡ false = ground arith in simp (a, b)

-- A chunk whose samples must reach the sink.
pub record IsAcceptable (bytes : List ℕ) (m : ChunkMetadata) : Type 0 where
  pub sound : m.corrupted ≡ false
  pub packed : (m.stride_bytes ≡ 0) ⊎ (m.stride_bytes ≡ 4)
  pub whole : m.size_bytes % 4 ≡ 0
  pub some_bytes : 0 < m.size_bytes
  pub inside : m.offset_bytes + m.size_bytes ≤ length bytes
  pub bounded : m.size_bytes ≤ 4 * max_callback_frames
