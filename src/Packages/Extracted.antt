-- ===== src/Packages/Extracted.antt =====
-- What an archive leaves on disk: `_extract` of backend/app/skills/package.py, whether it ends or
-- raises.
use hermes_agent_platform.Base.{
  ℕ, zero, suc, ◌+◌, ◌≤◌, ◌≡◌, refl, true, false, ◌||◌, Option, none, some, List, [], ◌∷◌, String,
  ◌==◌, ◌∈◌, length, is_empty, All, ltb, nat_eq, string_eq, arith, Bool-cases, inl, inr,
}
use hermes_agent_platform.Base.Outcome.{Outcome-cases}
use hermes_agent_platform.Packages.{
  Entry, FilePath, Extraction, System, normalized_name, parts_of, join_parts, parent, file_type,
  is_special, is_unsafe, write_chunks, write_file, place_entry, extract_entry, extract_entries,
  extract, nothing_yet,
}

-- The depth at which a path ends that starts at some depth below the root, if it never leaves it.
abbrev pub depth_from : ℕ → FilePath → Option ℕ
depth_from n [] = some n
depth_from n (p ∷ ps) = elim (p == "..") [
  | true ↦ elim n [ zero ↦ none | suc m ↦ depth_from m ps ]
  | false ↦ depth_from (suc n) ps
]

abbrev pub Inside : FilePath → Type 0
Inside path = (n : ℕ) × (depth_from 0 path ≡ some n)

abbrev pub written : List (FilePath × ℕ) → ℕ
written [] = 0
written ((path, n) ∷ files) = n + written files

-- The key under which a path counts as seen.
abbrev pub key_of : System → FilePath → String
key_of os path = os.casefold (join_parts path)

abbrev pub keys_of : System → List (FilePath × ℕ) → List String
keys_of os [] = []
keys_of os ((path, n) ∷ files) = key_of os path ∷ keys_of os files

-- No two files have the same key.
abbrev pub Distinct : System → List (FilePath × ℕ) → Type 0
Distinct os [] = Unit
Distinct os ((path, n) ∷ files) = (key_of os path ∈ keys_of os files ≡ false) × Distinct os files

-- What holds of the files at any time.
pub record IsContained (os : System) (limit : ℕ) (s : Extraction) : Type 0 where
  pub inside : All (λ f. Inside f.0) s.files
  pub distinct : Distinct os s.files
  pub all_seen : All (λ k. k ∈ s.seen ≡ true) (keys_of os s.files)
  pub counted : written s.files ≤ s.extracted_bytes
  pub within : written s.files ≤ limit

depth-skip :
    (n : ℕ) (p : String) (ps : FilePath) {m : ℕ}
    → (p == "..") ≡ false
    → depth_from (suc n) ps ≡ some m
    → depth_from n (p ∷ ps) ≡ some m
depth-skip n p ps e f = rw (e, depth_from) f

depth_lem : (n : ℕ) (path : FilePath) → ".." ∈ path ≡ false → (m : ℕ) × (depth_from n path ≡ some m)
depth_lem n [] h = (n, refl)
depth_lem n (p ∷ ps) h = elim (Bool-cases (p == "..")) [
  | inl e ↦ absurd (ground (arith, e, h))
  | inr e ↦ let (m, f) = depth_lem (suc n) ps (ground (arith, h)) in (m, depth-skip n p ps e f)
]

write_chunks_lem :
    (limit before extracted w : ℕ) (ns : List ℕ)
    → w + before ≤ extracted
    → w + before ≤ limit
    → ((write_chunks limit extracted w ns).1 + before ≤ (write_chunks limit extracted w ns).0)
      × ((write_chunks limit extracted w ns).1 + before ≤ limit)
unfolding write_chunks
write_chunks_lem limit before extracted w [] h k = (h, k)
write_chunks_lem limit before extracted w (n ∷ ns) h k =
    elim (Bool-cases (ltb limit (extracted + n))) [
      | inl e ↦ ground (arith, e, h, k)
      | inr e ↦ rw e (
          write_chunks_lem limit before (extracted + n) (w + n) ns (omega (arith, h))
            (ground (arith, e, h)))
    ]

not_among :
    (k : String) (seen ks : List String)
    → k ∈ seen ≡ false
    → All (λ j. j ∈ seen ≡ true) ks
    → k ∈ ks ≡ false
not_among k seen [] h a = refl
not_among k seen (j ∷ ks) h a = elim (Bool-cases (k == j)) [
  | inl e ↦ absurd (ground (arith, e, h, a.0))
  | inr e ↦ ground (arith, e, not_among k seen ks h a.1)
]

still_seen :
    (k : String) (seen ks : List String)
    → All (λ j. j ∈ seen ≡ true) ks
    → All (λ j. j ∈ (k ∷ seen) ≡ true) ks
still_seen k seen [] a = tt
still_seen k seen (j ∷ ks) a = (ground (arith, a.0), still_seen k seen ks a.1)

module _ (os : System) (limit : ℕ) where
  -- An entry that is seen leaves the files as they are.
  seen-IsContained :
      (s : Extraction) (k : String) (total : ℕ) (dirs : List FilePath)
      → IsContained os limit s
      → IsContained os limit (record s { seen = k ∷ s.seen; total_bytes = total; dirs = dirs })
  seen-IsContained s k total dirs c = record {
    inside = c.inside;
    distinct = c.distinct;
    all_seen = still_seen k s.seen (keys_of os s.files) c.all_seen;
    counted = c.counted;
    within = c.within;
  }

  write_file-IsContained :
      (s : Extraction) (path : FilePath) (chunks : List ℕ) (total : ℕ)
      → IsContained os limit s
      → ".." ∈ path ≡ false
      → key_of os path ∈ s.seen ≡ false
      → IsContained os limit
          (write_file os limit path chunks
            (record s { seen = key_of os path ∷ s.seen; total_bytes = total })).0
  unfolding write_file
  write_file-IsContained s path chunks total c h k =
      let dirs : List FilePath = parent path ∷ s.dirs in
      elim (Bool-cases (os.refuses_dir s.dirs s.files (parent path))) [
        | inl e ↦ rw e (seen-IsContained s (key_of os path) total s.dirs c)
        | inr e ↦ elim (Bool-cases (os.refuses_file dirs s.files path)) [
          | inl f ↦ rw (e, f) (seen-IsContained s (key_of os path) total dirs c)
          | inr f ↦
              let (a, b) =
                write_chunks_lem limit (written s.files) s.extracted_bytes 0 chunks
                  (omega (arith, c.counted)) (omega (arith, c.within)) in
              rw (e, f)
                (record {
                  inside = (depth_lem 0 path h, c.inside);
                  distinct = (
                    not_among (key_of os path) s.seen (keys_of os s.files) k c.all_seen,
                    c.distinct,
                  );
                  all_seen = (
                    ground arith,
                    still_seen (key_of os path) s.seen (keys_of os s.files) c.all_seen,
                  );
                  counted = a;
                  within = b;
                })
        ]
      ]

  place_entry-IsContained :
      (s : Extraction) (info : Entry) (path : FilePath) (total : ℕ)
      → IsContained os limit s
      → ".." ∈ path ≡ false
      → key_of os path ∈ s.seen ≡ false
      → IsContained os limit
          (place_entry os limit info path
            (record s { seen = key_of os path ∷ s.seen; total_bytes = total })).0
  unfolding place_entry
  place_entry-IsContained s info path total c h k = elim (Bool-cases info.is_dir) [
    | inl e ↦ elim (Bool-cases (os.refuses_dir s.dirs s.files path)) [
      | inl r ↦ rw (e, r) (seen-IsContained s (key_of os path) total s.dirs c)
      | inr r ↦ rw (e, r) (seen-IsContained s (key_of os path) total (path ∷ s.dirs) c)
    ]
    | inr e ↦ rw e (write_file-IsContained s path info.chunks total c h k)
  ]

  no_parent :
      (normalized k : String) (seen : List String)
      → (is_unsafe normalized || k ∈ seen) ≡ false
      → (".." ∈ parts_of normalized ≡ false) × (k ∈ seen ≡ false)
  no_parent normalized k seen h = ground (arith, h)

  extract_entry-IsContained :
      (info : Entry) (s : Extraction)
      → IsContained os limit s
      → IsContained os limit (extract_entry os limit info s).0
  unfolding extract_entry
  extract_entry-IsContained info s c =
      let normalized : String = normalized_name info.filename in
      let path : FilePath = parts_of normalized in
      let k : String = key_of os path in
      elim (Bool-cases (is_unsafe normalized || k ∈ s.seen)) [
        | inl e ↦ rw e c
        | inr e ↦ elim (Bool-cases (is_special (file_type info.mode))) [
          | inl f ↦ rw (e, f) (seen-IsContained s k s.total_bytes s.dirs c)
          | inr f ↦ elim (Bool-cases (ltb limit (s.total_bytes + info.file_size))) [
            | inl g ↦ rw (e, f, g) (seen-IsContained s k (s.total_bytes + info.file_size) s.dirs c)
            | inr g ↦
                let (a, b) = no_parent normalized k s.seen e in
                rw (e, f, g)
                  (place_entry-IsContained s info path (s.total_bytes + info.file_size) c a b)
          ]
        ]
      ]

  extract_entries-IsContained :
      (entries : List Entry) (s : Extraction)
      → IsContained os limit s
      → IsContained os limit (extract_entries os limit entries s).0
  unfolding extract_entries
  extract_entries-IsContained [] s c = c
  extract_entries-IsContained (info ∷ infos) s c =
      let d = extract_entry-IsContained info s c in
      elim (Outcome-cases (extract_entry os limit info s).1) [
        | inl (u, f) ↦
            rw (extract_entries, f)
              (extract_entries-IsContained infos (extract_entry os limit info s).0 d)
        | inr (e, f) ↦ rw (extract_entries, f) d
      ]

  -- Whatever the archive holds, and whether the extraction ends or raises: no file that it has written
  -- is outside the root at any step of its path, no two files have the same key, which is the path in
  -- folded case, and the files together have at most as many bytes as the limit.
  pub extract-IsContained :
      (max_entries : ℕ) (entries : List Entry)
      → IsContained os limit (extract os limit max_entries entries).0
  unfolding extract
  extract-IsContained max_entries entries =
      let start : IsContained os limit (nothing_yet os limit) = record {
        inside = tt;
        distinct = tt;
        all_seen = tt;
        counted = ground arith;
        within = ground arith;
      } in
      elim (Bool-cases (is_empty entries || ltb max_entries (length entries))) [
        | inl e ↦ rw e start
        | inr e ↦ rw e (extract_entries-IsContained entries (nothing_yet os limit) start)
      ]
