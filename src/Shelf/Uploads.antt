-- ===== src/Shelf/Uploads.antt =====
-- `uploadFiles` of frontend/src/hooks/useShelfData.ts: at most three workers that take the files in
-- order. A file is its place among those that are not empty; `uploaded` keeps which uploads ended.
pub mod Complete
use z_reader.Prelude.{
  ℕ, zero, suc, ◌+◌, ◌-◌, ◌≤◌, ◌<◌, ◌≡◌, ◌⊎◌, inl, inr, refl, ap, arith, min, Bool, true, false,
  not, List, [], ◌∷◌, ◌++◌, if◌then◌else◌, ltb, ◌==◌, any, length, filter, Bool-cases,
}

abbrev pub max_concurrent_uploads : ℕ
max_concurrent_uploads = 3

pub record Uploads : Type 0 where
  pub total : ℕ
  pub next_index : ℕ
  pub uploading : List ℕ
  pub success_count : ℕ
  pub failed_count : ℕ
  pub completed_count : ℕ
  pub uploaded : List ℕ

-- `fileList.filter((file) => file.size > 0)`, of the sizes
abbrev pub uploadable_files : List ℕ → List ℕ
uploadable_files sizes = filter (λ n. ltb 0 n) sizes

-- A worker takes the next file, if there is one.
unfoldable pub take_file : Uploads → Uploads
take_file s =
    if ltb s.next_index s.total
    then record s { uploading = s.next_index ∷ s.uploading; next_index = s.next_index + 1 }
    else s

unfoldable pub start_workers : ℕ → Uploads → Uploads
unfolding take_file
start_workers zero s = s
start_workers (suc n) s = start_workers n (take_file s)

abbrev pub none_taken : ℕ → Uploads
none_taken n = record {
  total = n;
  next_index = 0;
  uploading = [];
  success_count = 0;
  failed_count = 0;
  completed_count = 0;
  uploaded = [];
}

-- The workers up to their first waits.
unfoldable pub upload_files : List ℕ → Uploads
unfolding start_workers
upload_files sizes =
    let n = length (uploadable_files sizes) in
    start_workers (min max_concurrent_uploads n) (none_taken n)

unfoldable pub remove_file : ℕ → List ℕ → List ℕ
remove_file i [] = []
remove_file i (j ∷ js) = let rest = remove_file i js in if j == i then js else j ∷ rest

-- A worker whose upload ended counts it and takes the next file.
unfoldable pub end_upload : ℕ → Bool → Uploads → Uploads
unfolding remove_file take_file
end_upload i succeeded s = take_file (record s {
  uploading = remove_file i s.uploading;
  success_count = if succeeded then s.success_count + 1 else s.success_count;
  failed_count = if succeeded then s.failed_count else s.failed_count + 1;
  completed_count = s.completed_count + 1;
  uploaded = i ∷ s.uploaded;
})

pub data Reach (sizes : List ℕ) : Uploads → Type 0 where
  start : Reach sizes (upload_files sizes)
  next :
      {s : Uploads}
      → Reach sizes s
      → (i : ℕ) (succeeded : Bool) → any (λ j. j == i) s.uploading ≡ true
      → Reach sizes (end_upload i succeeded s)

-- How often a file is in a list.
abbrev pub count : ℕ → List ℕ → ℕ
count i [] = 0
count i (j ∷ js) = (if j == i then 1 else 0) + count i js
