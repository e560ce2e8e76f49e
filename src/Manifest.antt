-- ===== src/Manifest.antt =====
-- crates/jcr-core/src/manifest.rs, lines 7-204: OCI and Docker manifests. JSON is another package's
-- code, and its values are the parameter `Value`.
pub mod Trim
use jcr.Prelude.{
  ℕ, ◌+◌, String, Bool, true, false, not, ◌&&◌, ◌||◌, Option, none, some, List, [], ◌∷◌, ◌++◌,
  reverse, leb, ◌==◌, if◌then◌else◌, Bytes, codes, bytes_eq, Result, ok, err, ok_or, ◌>>=◌,
}
use jcr.Text.{split}
use jcr.Text.Decimal.{ℤ}
use jcr.Digest.{Digest, sha256}

-- What the code uses of `serde_json`; `to_descriptor` is the derived `Deserialize` of `Descriptor`.
pub record Descriptor : Type 0 where
  pub media_type : Bytes
  pub digest : Digest
  pub size : ℤ

pub record Json (Value : Type 0) : Type 0 where
  pub from_slice : Bytes → Option Value
  pub get : Value → String → Option Value
  pub as_u64 : Value → Option ℕ
  pub as_str : Value → Option Bytes
  pub as_array : Value → Option (List Value)
  pub to_descriptor : Value → Option Descriptor

abbrev pub oci_image_manifest : Bytes
oci_image_manifest = codes "application/vnd.oci.image.manifest.v1+json"

abbrev pub oci_image_index : Bytes
oci_image_index = codes "application/vnd.oci.image.index.v1+json"

abbrev pub docker_image_manifest : Bytes
docker_image_manifest = codes "application/vnd.docker.distribution.manifest.v2+json"

abbrev pub docker_manifest_list : Bytes
docker_manifest_list = codes "application/vnd.docker.distribution.manifest.list.v2+json"

pub data ManifestKind : Type 0 where
  manifest_kind index_kind : ManifestKind

pub data DescriptorRelationship : Type 0 where
  config layer manifest subject : DescriptorRelationship

-- `DescriptorRelationship::as_str`
unfoldable pub relationship_text : DescriptorRelationship → String
relationship_text config = "config"
relationship_text layer = "layer"
relationship_text manifest = "manifest"
relationship_text subject = "subject"

pub record Entry : Type 0 where
  pub relationship : DescriptorRelationship
  pub position : ℕ
  pub descriptor : Descriptor

pub record ManifestDocument : Type 0 where
  pub raw : Bytes
  pub digest : Digest
  pub media_type : Bytes
  pub kind : ManifestKind
  pub artifact_type : Option Bytes
  pub subject_descriptor : Option Descriptor
  pub descriptors : List Entry

pub data ManifestError : Type 0 where
  json unsupported_schema missing_media_type : ManifestError
  unsupported_media_type : Bytes → ManifestError

-- `char::is_whitespace` on the UTF-8 of one character: of one byte,
abbrev space_one : ℕ → Bool
space_one a = a == 32 || (leb 9 a && leb a 13)

-- of two,
abbrev space_two : ℕ → ℕ → Bool
space_two a b = a == 194 && (b == 133 || b == 160)

-- and of three.
abbrev space_three : ℕ → ℕ → ℕ → Bool
space_three a b c =
    (a == 225 && (b == 154 && c == 128))
    || (a == 226
        && (b == 128 && ((leb 128 c && leb c 138) || (c == 168 || (c == 169 || c == 175)))))
    || (a == 226 && (b == 129 && c == 159))
    || (a == 227 && (b == 128 && c == 128))

-- Whitespace goes off the front; the tests are given the bytes in the order in which they stand.
unfoldable pub trim_front : (ℕ → ℕ → Bool) → (ℕ → ℕ → ℕ → Bool) → Bytes → Bytes
trim_front two three [] = []
trim_front two three (a ∷ []) = if space_one a then [] else a ∷ []
trim_front two three (a ∷ b ∷ []) = elim (space_one a) [
  | true ↦ if space_one b then [] else b ∷ []
  | false ↦ if two a b then [] else a ∷ b ∷ []
]
trim_front two three (a ∷ b ∷ c ∷ s) = elim (space_one a) [
  | true ↦ trim_front two three (b ∷ c ∷ s)
  | false ↦ elim (two a b) [
    | true ↦ trim_front two three (c ∷ s)
    | false ↦ elim (three a b c) [ true ↦ trim_front two three s | false ↦ a ∷ b ∷ c ∷ s ]
  ]
]

-- `str::trim`
unfoldable pub trim : Bytes → Bytes
trim s =
    let front = trim_front space_two space_three s in
    reverse (trim_front (λ b a. space_two a b) (λ c b a. space_three a b c) (reverse front))

abbrev first_part : List Bytes → Option Bytes
first_part [] = none
first_part (p ∷ ps) = some p

abbrev pub or_else : Option Bytes → Option Bytes → Option Bytes
or_else none o = o
or_else (some s) o = some s

abbrev pub is_present {ℓ} : {A : Type ℓ} → Option A → Bool
is_present none = false
is_present (some a) = true

module _ {Value : Type 0} (library : Json Value) where
  -- a field of a type, where it is there and has the type
  abbrev pub field : {A : Type 0} → (Value → Option A) → Value → String → Option A
  field read value name = elim (library.get value name) [ none ↦ none | some v ↦ read v ]

  abbrev is_two : Option ℕ → Bool
  is_two none = false
  is_two (some n) = n == 2

  abbrev supplied : Option Bytes → Option Bytes
  supplied none = none
  supplied (some text) = first_part (split b';' text)

  unfoldable pub media_type_of : Value → Option Bytes → Result ManifestError Bytes
  unfolding trim
  media_type_of value supplied_media_type =
      elim (or_else (field library.as_str value "mediaType") (supplied supplied_media_type)) [
        | none ↦ err missing_media_type
        | some text ↦ ok (trim text)
      ]

  unfoldable pub kind_of : Value → Bytes → Result ManifestError ManifestKind
  kind_of value media_type =
      if bytes_eq media_type oci_image_manifest || bytes_eq media_type docker_image_manifest
      then ok manifest_kind
      else if bytes_eq media_type oci_image_index || bytes_eq media_type docker_manifest_list
      then ok index_kind
      else if is_present (library.get value "config") || is_present (library.get value "layers")
      then ok manifest_kind
      else if is_present (library.get value "manifests")
      then ok index_kind
      else err (unsupported_media_type media_type)

  abbrev pub descriptor_of : Value → Result ManifestError Descriptor
  descriptor_of value = ok_or (library.to_descriptor value) json

  -- a descriptor that may be absent, but not of another shape
  unfoldable pub optional_descriptor : Option Value → Result ManifestError (Option Descriptor)
  optional_descriptor none = ok none
  optional_descriptor (some value) = elim (library.to_descriptor value) [
    | none ↦ err json
    | some d ↦ ok (some d)
  ]

  -- the loops over an array, from a position on
  unfoldable pub enumerate :
      DescriptorRelationship → ℕ → List Value → Result ManifestError (List Entry)
  enumerate relationship position [] = ok []
  enumerate relationship position (value ∷ values) = do
    descriptor ← descriptor_of value
    rest ← enumerate relationship (position + 1) values
    ok (record { relationship = relationship; position = position; descriptor = descriptor } ∷ rest)

  abbrev elements_of : Option (List Value) → List Value
  elements_of none = []
  elements_of (some values) = values

  abbrev pub entry_of : DescriptorRelationship → Option Descriptor → List Entry
  entry_of relationship none = []
  entry_of relationship (some d) =
      record { relationship = relationship; position = 0; descriptor = d } ∷ []

  unfoldable pub entries_of : ManifestKind → Value → Result ManifestError (List Entry)
  unfolding optional_descriptor enumerate
  entries_of manifest_kind value = do
    found ← optional_descriptor (library.get value "config")
    layers ← enumerate layer 0 (elements_of (field library.as_array value "layers"))
    ok (entry_of config found ++ layers)
  entries_of index_kind value =
      enumerate manifest 0 (elements_of (field library.as_array value "manifests"))

  module _ (hex_sha256 : Bytes → Bytes) where
    -- `ManifestDocument::parse`
    unfoldable pub parse : Bytes → Option Bytes → Result ManifestError ManifestDocument
    parse raw supplied_media_type = do
      value ← ok_or (library.from_slice raw) json
      if not (is_two (field library.as_u64 value "schemaVersion"))
          then err unsupported_schema
          else do
            media_type ← media_type_of value supplied_media_type
            kind ← kind_of value media_type
            found ← optional_descriptor (library.get value "subject")
            entries ← entries_of kind value
            ok (record {
              raw = raw;
              digest = sha256 hex_sha256 raw;
              media_type = media_type;
              kind = kind;
              artifact_type = field library.as_str value "artifactType";
              subject_descriptor = found;
              descriptors = entries ++ entry_of subject found;
            })
