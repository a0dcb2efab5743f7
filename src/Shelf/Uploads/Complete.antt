-- ===== src/Shelf/Uploads/Complete.antt =====
-- The uploads of frontend/src/hooks/useShelfData.ts are complete.
use z_reader.Prelude.{
  ℕ, zero, suc, ◌+◌, ◌≤◌, ◌<◌, ◌≡◌, ◌⊎◌, inl, inr, refl, ap, arith, min, Bool, true, List, [], ◌∷◌,
  if◌then◌else◌, ltb, ◌==◌, any, length, Bool-cases,
}
use z_reader.Shelf.Uploads.{
  max_concurrent_uploads, Uploads, uploadable_files, take_file, start_workers, none_taken,
  upload_files, remove_file, end_upload, Reach, start, next, count,
}

abbrev taken : ℕ → ℕ → ℕ
taken i taken_before = if ltb i taken_before then 1 else 0

pub record IsValid (n : ℕ) (s : Uploads) : Type 0 where
  pub all : s.total ≡ n
  pub within : s.next_index ≤ s.total
  pub few : length s.uploading ≤ max_concurrent_uploads
  pub counted : s.success_count + s.failed_count ≡ s.completed_count
  pub completed : s.completed_count + length s.uploading ≡ s.next_index
  pub once : (i : ℕ) → count i s.uploaded + count i s.uploading ≡ taken i s.next_index
  pub busy : (s.next_index ≡ s.total) ⊎ (0 < length s.uploading)

take_file-IsValid :
    (n : ℕ) (s : Uploads)
    → s.total ≡ n
    → s.next_index ≤ s.total
    → length s.uploading < max_concurrent_uploads
    → s.success_count + s.failed_count ≡ s.completed_count
    → s.completed_count + length s.uploading ≡ s.next_index
    → ((i : ℕ) → count i s.uploaded + count i s.uploading ≡ taken i s.next_index)
    → IsValid n (take_file s)
unfolding take_file
take_file-IsValid n s all within few counted completed once =
    elim (Bool-cases (ltb s.next_index s.total)) [
      | inl more ↦
          rw (more, take_file)
            (record {
              all = all;
              within = ground (arith, more);
              few = omega (arith, few);
              counted = counted;
              completed = omega (arith, completed);
              once = λ i. ground (arith, once i);
              busy = inr (omega arith);
            })
      | inr over ↦
          rw (over, take_file)
            (record {
              all = all;
              within = within;
              few = omega (arith, few);
              counted = counted;
              completed = completed;
              once = once;
              busy = inl (ground (arith, over, within));
            })
    ]

removed :
    (i : ℕ) (js : List ℕ)
    → any (λ j. j == i) js ≡ true
    → (length (remove_file i js) + 1 ≡ length js)
      × ((k : ℕ) → count k (remove_file i js) + (if i == k then 1 else 0) ≡ count k js)
unfolding remove_file
removed i [] h = absurd (ground (arith, h))
removed i (j ∷ js) h = elim (Bool-cases (j == i)) [
  | inl here ↦ rw (here, remove_file) (omega arith, λ k. ground (arith, here))
  | inr there ↦
      let r = removed i js (ground (arith, h, there)) in
      rw (there, remove_file) (omega (arith, r.0), λ k. ground (arith, r.1 k))
]

end_upload-IsValid :
    (n i : ℕ) (succeeded : Bool) (s : Uploads)
    → any (λ j. j == i) s.uploading ≡ true
    → IsValid n s
    → IsValid n (end_upload i succeeded s)
unfolding end_upload
end_upload-IsValid n i succeeded s there v =
    let r = removed i s.uploading there in
    let s' = record s {
      uploading = remove_file i s.uploading;
      success_count = if succeeded then s.success_count + 1 else s.success_count;
      failed_count = if succeeded then s.failed_count else s.failed_count + 1;
      completed_count = s.completed_count + 1;
      uploaded = i ∷ s.uploaded;
    } in
    take_file-IsValid n s' v.all v.within (omega (arith, r.0, v.few)) (ground (arith, v.counted))
      (omega (arith, r.0, v.completed)) (λ k. ground (arith, v.once k, r.1 k))

more_workers-IsValid :
    (n k : ℕ) (s : Uploads)
    → length s.uploading + k ≤ max_concurrent_uploads
    → IsValid n s
    → IsValid n (start_workers k s)
unfolding start_workers take_file
more_workers-IsValid n zero s room v = v
more_workers-IsValid n (suc k) s room v =
    more_workers-IsValid n k (take_file s) (ground (arith, room))
      (take_file-IsValid n s v.all v.within (omega (arith, room)) v.counted v.completed v.once)

start_workers-IsValid :
    (n k : ℕ) → k ≡ min max_concurrent_uploads n → IsValid n (start_workers k (none_taken n))
unfolding start_workers take_file
start_workers-IsValid n zero e = record {
  all = refl;
  within = omega arith;
  few = omega arith;
  counted = refl;
  completed = refl;
  once = λ i. ground arith;
  busy = inl (omega (arith, e));
}
start_workers-IsValid n (suc k) e =
    more_workers-IsValid n k (take_file (none_taken n)) (ground (arith, e)) (
      take_file-IsValid n (none_taken n) refl (omega arith) (omega arith) refl refl
        (λ i. ground arith))

Reach-IsCounted :
    {sizes : List ℕ} {s : Uploads} → Reach sizes s → IsValid (length (uploadable_files sizes)) s
unfolding upload_files
Reach-IsCounted {sizes = sizes} start =
    start_workers-IsValid (length (uploadable_files sizes))
      (min max_concurrent_uploads (length (uploadable_files sizes))) refl
Reach-IsCounted {sizes = sizes} (next {s = s} before i succeeded there) =
    end_upload-IsValid (length (uploadable_files sizes)) i succeeded s there
      (Reach-IsCounted before)

-- At every moment at most three files are uploaded at a time and no file is uploaded twice. When no
-- upload is at work, every file that is not empty was uploaded exactly once, and the counts of the
-- successes and the failures add up to their number.
pub uploads_complete :
    (sizes : List ℕ) (s : Uploads)
    → Reach sizes s
    → (length s.uploading ≤ max_concurrent_uploads)
      × ((i : ℕ) → count i s.uploaded + count i s.uploading ≤ 1)
      × (s.uploading ≡ []
          → (s.success_count + s.failed_count ≡ length (uploadable_files sizes))
            × ((i : ℕ) → i < length (uploadable_files sizes) → count i s.uploaded ≡ 1))
uploads_complete sizes s r =
    let v = Reach-IsCounted r in
    (
      v.few,
      λ i. ground (arith, v.once i),
      λ e.
          let none_ : length s.uploading ≡ 0 = ap (λ js. length js) e in
          let over : s.next_index ≡ length (uploadable_files sizes) = elim v.busy [
            | inl same ↦ omega (arith, same, v.all)
            | inr some_ ↦ absurd (omega (arith, some_, none_))
          ] in
          (
            omega (arith, v.counted, v.completed, over, none_),
            λ i l.
                let gone : count i s.uploading ≡ 0 = ap (count i) e in
                ground (arith, v.once i, gone, over, l),
          ),
    )
