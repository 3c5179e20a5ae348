-- ===== src/Discovery.antt =====
-- crates/quarters-core/src/discovery: the selected roots, the classes of their entries, and the
-- rules of classify.rs. A name is its bytes; the cache directories of the platform are an argument.
pub mod Below
pub mod Case
pub mod Summary
pub mod Merge
pub mod Report
use quarters.Prelude.{
  ℕ, ◌+◌, ◌*◌, ◌/◌, ◌%◌, Bool, true, false, ◌&&◌, ◌||◌, not, none, some, List, [], ◌∷◌, ◌++◌, leb,
  nat_beq, if◌then◌else◌, length, any, ◌==◌, Bytes, nat_eq, bytes_eq, codes, strip_prefix,
  starts_with,
}

pub data DiscoverySelector : Type 0 where
  home : DiscoverySelector
  runtime : DiscoverySelector

pub data DiscoveryClass : Type 0 where
  configuration : DiscoveryClass
  personal_data : DiscoveryClass
  state : DiscoveryClass
  cache : DiscoveryClass
  credential_shaped : DiscoveryClass
  runtime_socket : DiscoveryClass
  runtime_other : DiscoveryClass
  unclassified : DiscoveryClass

abbrev pub is_runtime : DiscoverySelector → Bool
is_runtime home = false
is_runtime runtime = true

-- `u8::to_ascii_lowercase`.
abbrev pub to_ascii_lowercase : ℕ → ℕ
to_ascii_lowercase b = if leb 65 b && leb b 90 then b + 32 else b

abbrev pub ascii_lowercase : Bytes → Bytes
ascii_lowercase [] = []
ascii_lowercase (b ∷ bs) = to_ascii_lowercase b ∷ ascii_lowercase bs

-- The components behind the first one, each behind a `/`.
abbrev pub joined_rest : List Bytes → Bytes
joined_rest [] = []
joined_rest (component ∷ path) = 47 ∷ (ascii_lowercase component ++ joined_rest path)

unfoldable pub joined_ascii_lowercase : List Bytes → Bytes
joined_ascii_lowercase [] = []
joined_ascii_lowercase (component ∷ path) = ascii_lowercase component ++ joined_rest path

abbrev pub credential_prefixes : List Bytes
credential_prefixes =
    codes ".anthropic"
    ∷ codes ".aws"
    ∷ codes ".azure"
    ∷ codes ".cargo/credentials"
    ∷ codes ".cargo/credentials.toml"
    ∷ codes ".claude"
    ∷ codes ".codex"
    ∷ codes ".config/anthropic"
    ∷ codes ".config/gcloud"
    ∷ codes ".config/gh"
    ∷ codes ".config/opencode"
    ∷ codes ".docker"
    ∷ codes ".env"
    ∷ codes ".git-credentials"
    ∷ codes ".gnupg"
    ∷ codes ".kube"
    ∷ codes ".netrc"
    ∷ codes ".npmrc"
    ∷ codes ".openai"
    ∷ codes ".pypirc"
    ∷ codes ".ssh"
    ∷ []

abbrev pub credential_names : List Bytes
credential_names =
    codes "auth.json"
    ∷ codes "credentials"
    ∷ codes "credentials.json"
    ∷ codes "hosts.yml"
    ∷ codes "token"
    ∷ codes "token.json"
    ∷ codes ".pgpass"
    ∷ []

abbrev pub credential_suffixes : List Bytes
credential_suffixes = codes ".pem" ∷ codes ".key" ∷ codes ".p12" ∷ codes ".pfx" ∷ codes ".kdbx" ∷ []

abbrev pub ends_with : Bytes → Bytes → Bool
ends_with suffix [] = suffix == []
ends_with suffix (b ∷ bs) = (suffix == b ∷ bs) || ends_with suffix bs

unfoldable pub credential_shaped_component : Bytes → Bool
credential_shaped_component component =
    any (λ name. ascii_lowercase component == name) credential_names
    || any (λ suffix. ends_with suffix (ascii_lowercase component)) credential_suffixes

-- The value is the prefix, or continues behind it with a `/`.
abbrev pub is_at_or_below : Bytes → Bytes → Bool
is_at_or_below value prefix =
    value == prefix
    || elim (strip_prefix prefix value) [ none ↦ false | some tail ↦ starts_with (47 ∷ []) tail ]

-- `credential_shaped_components` on the joined path.
unfoldable pub credential_shaped_value : Bytes → Bool
credential_shaped_value value =
    any (λ prefix. is_at_or_below value prefix) credential_prefixes
    || value == codes ".env"
    || starts_with (codes ".env.") value

unfoldable pub credential_shaped_components : List Bytes → Bool
credential_shaped_components path =
    credential_shaped_value (joined_ascii_lowercase path) || any credential_shaped_component path

abbrev pub components_start_with : List Bytes → List Bytes → Bool
components_start_with path [] = true
components_start_with [] (expected ∷ prefix) = false
components_start_with (component ∷ path) (expected ∷ prefix) =
    component == expected && components_start_with path prefix

abbrev pub derived_cache : List (List Bytes) → List Bytes → Bool
derived_cache roots path = any (λ root. components_start_with path root) roots

-- `mode & S_IFMT`.
abbrev pub file_kind : ℕ → ℕ
file_kind mode = mode / 4096 % 16 * 4096

unfoldable pub classify_home : List (List Bytes) → Bytes → List Bytes → ℕ → DiscoveryClass
classify_home caches first path mode =
    if first == codes ".cache" || derived_cache caches path
    then cache
    else if first == codes ".config"
    then configuration
    else if components_start_with path (codes ".local" ∷ codes "state" ∷ [])
    then state
    else if components_start_with path (codes ".local" ∷ codes "share" ∷ [])
        || components_start_with path (codes ".local" ∷ codes "bin" ∷ [])
        || not (starts_with (46 ∷ []) first)
    then personal_data
    else if nat_beq (length path) 1 && nat_beq (file_kind mode) 32768
    then configuration
    else unclassified

-- Behind the tests that hold for either root.
abbrev pub classify_first : List (List Bytes) → List Bytes → ℕ → DiscoveryClass
classify_first caches [] mode = unclassified
classify_first caches (first ∷ rest) mode = classify_home caches first (first ∷ rest) mode

unfoldable pub classify : List (List Bytes) → DiscoverySelector → List Bytes → ℕ → DiscoveryClass
classify caches selector path mode =
    if credential_shaped_components path
    then credential_shaped
    else if nat_beq (file_kind mode) 49152
    then runtime_socket
    else if is_runtime selector
    then runtime_other
    else classify_first caches path mode
