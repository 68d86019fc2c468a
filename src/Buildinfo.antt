-- ===== src/Buildinfo.antt =====
-- internal/buildinfo/buildinfo.go: the identity of the running executable. What the build stamps and
-- what the process draws or asks the runtime for are arguments.
use smolllm_server.Base.{
  ℕ, ◌≡◌, ◌↔◌, ◌⊎◌, refl, Bool, true, ◌&&◌, ◌||◌, arith, leb, eqb, ◌==◌, ==_iff, text_eq, Text,
  codes, all, length,
}

-- `revisionPattern`
abbrev pub is_lower_hex : ℕ → Bool
is_lower_hex c = leb b'0' c && leb c b'9' || leb b'a' c && leb c b'f'

unfoldable pub is_revision : Text → Bool
is_revision s = all is_lower_hex s && (eqb (length s) 40 || eqb (length s) 64)

-- the variables that the linker sets
pub record Stamps : Type 0 where
  pub server_revision : Text
  pub library_revision : Text
  pub source_clean : Text

-- what `Current` reads of the process
pub record Runtime : Type 0 where
  pub goos : Text
  pub goarch : Text
  pub go_version : Text
  pub instance_id : Text
  pub pid : ℕ

pub record Info : Type 0 where
  pub schema_version : ℕ
  pub server_revision : Text
  pub library_revision : Text
  pub source_clean : Bool
  pub runtime : Runtime

-- `Current`
unfoldable pub current : Stamps → Runtime → Info
unfolding is_revision
current stamps process = record {
  schema_version = 1;
  server_revision = stamps.server_revision;
  library_revision = stamps.library_revision;
  source_clean =
      stamps.source_clean == codes "true"
      && is_revision stamps.server_revision
      && is_revision stamps.library_revision;
  runtime = process;
}

-- forty or sixty-four lower-case hexadecimal digits
abbrev pub IsRevision : Text → Type 0
IsRevision s = (all is_lower_hex s ≡ true) × ((length s ≡ 40) ⊎ (length s ≡ 64))

is_revision_iff : (s : Text) → (is_revision s ≡ true) ↔ IsRevision s
unfolding is_revision
is_revision_iff s = ground arith

-- The build is reported as clean exactly if it was stamped so and both revisions are those of
-- commits, forty or sixty-four lower-case hexadecimal digits: the defaults of an unstamped build are
-- never clean, and the revisions are reported as they were stamped in any case.
pub current-source_clean :
    (stamps : Stamps) (process : Runtime)
    → (((current stamps process).source_clean ≡ true) ↔ (
        (stamps.source_clean ≡ codes "true")
        × IsRevision stamps.server_revision
        × IsRevision stamps.library_revision))
      × ((current stamps process).server_revision ≡ stamps.server_revision)
      × ((current stamps process).library_revision ≡ stamps.library_revision)
unfolding current
current-source_clean stamps process = (
  ground (
    arith,
    ==_iff stamps.source_clean (codes "true"),
    is_revision_iff stamps.server_revision,
    is_revision_iff stamps.library_revision,
  ),
  refl,
  refl,
)
