-- ===== src/Tests/Archives.antt =====
-- A Skill package that is taken from an archive.
use hermes_agent_platform.Base.{ℕ, ◌≡◌, refl, false, List, [], ◌∷◌, String, string_eq, nat_eq}
use hermes_agent_platform.Base.Outcome.{ok, raised}
use hermes_agent_platform.Packages.{Entry, System, skill_load_error, extract}
use hermes_agent_platform.Packages.Extracted.{IsContained, extract-IsContained}

abbrev os : System
os = record {
  casefold = λ s. s;
  refuses_dir = λ dirs files path. false;
  refuses_file = λ dirs files path. false;
}

abbrev file_of : String → List ℕ → Entry
file_of name sizes = record {
  filename = name;
  mode = 33188;
  file_size = 3;
  is_dir = false;
  chunks = sizes;
}

abbrev archive : List Entry
archive = file_of "demo\\manifest.json" (3 ∷ []) ∷ (file_of "demo/SKILL.md" (2 ∷ (1 ∷ [])) ∷ [])

archive_passes : extract os 100 10 archive ≡ (
  record {
    seen = "demo/SKILL.md" ∷ ("demo/manifest.json" ∷ []);
    total_bytes = 6;
    extracted_bytes = 6;
    dirs = ("demo" ∷ []) ∷ (("demo" ∷ []) ∷ []);
    files = ("demo" ∷ ("SKILL.md" ∷ []), 3) ∷ (("demo" ∷ ("manifest.json" ∷ []), 3) ∷ []);
  },
  ok tt,
)
unfolding extract string_eq nat_eq
archive_passes = refl

-- A file whose content is longer than its entry says is cut off.
archive_is_cut : extract os 7 10 (file_of "a" (3 ∷ (9 ∷ (1 ∷ []))) ∷ []) ≡ (
  record {
    seen = "a" ∷ [];
    total_bytes = 3;
    extracted_bytes = 12;
    dirs = [] ∷ [];
    files = ("a" ∷ [], 3) ∷ [];
  },
  raised skill_load_error,
)
unfolding extract string_eq nat_eq
archive_is_cut = refl

archive_stays :
    (extract os 100 10 (file_of "demo/../../x" (3 ∷ []) ∷ [])).1 ≡ raised skill_load_error
unfolding extract string_eq nat_eq
archive_stays = refl

extract-IsContained_example : IsContained os 100 (extract os 100 10 archive).0
extract-IsContained_example = extract-IsContained os 100 10 archive
