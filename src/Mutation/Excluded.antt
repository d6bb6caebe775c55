-- ===== src/Mutation/Excluded.antt =====
-- runner/mutation.go: which files the patterns of exclusions match.
use levenshtein.Base.{
  String, ◌≡◌, refl, sym, ap, ◌∙◌, inl, inr, Bool, true, false, not, ◌&&◌, List, map, arith, ◌==◌,
  eq_iff, eq_refl, Bool-cases, any, all, sorted_keys, contains,
}
use levenshtein.Base.{any-sorted_keys}
use levenshtein.Mutation.Tally.{path_dir}
use levenshtein.Base.{
  Option-cases, cut_prefix, All-both, if◌then◌else◌, concat, join, has_suffix, All,
}
use levenshtein.Mutation.Files.{
  path_base, others_of, other_names, touched, exclusion_of, exclusions,
}
use levenshtein.Mutation.Dirs.{
  prefix_of, go_file_in, cut_prefix-concat, cut_prefix-some, path_base-no_slash, path_dir-concat,
}
use levenshtein.Mutation.Others.{
  any-map, any_ext_on, no_member, a_member, all_member, any-others_of, contains-other_names,
}

-- A path of a Go file that is its directory, a slash where that is not the root, and a name that is more than `.go`
abbrev pub go_path : String → Bool
go_path file =
    file == concat (prefix_of (path_dir file)) (path_base file)
    && (has_suffix ".go" (path_base file) && not (path_base file == ".go"))

split_path :
    (x dir n : String)
    → go_path x ≡ true
    → path_dir x ≡ dir
    → path_base x ≡ n
    → x ≡ concat (prefix_of dir) n
split_path x dir n own d b =
    (eq_iff x (concat (prefix_of (path_dir x)) (path_base x))).0 (ground (arith, own))
    ∙ ap (λ y. concat (prefix_of y) (path_base x)) d
    ∙ ap (λ y. concat (prefix_of dir) y) b

go_file_in-path_dir :
    (dir file : String) → go_file_in (prefix_of dir) file ≡ true → path_dir file ≡ dir
unfolding go_file_in
go_file_in-path_dir dir file h = elim (Option-cases (cut_prefix (prefix_of dir) file)) [
  | inl none_ ↦ absurd (cc (rw (none_, go_file_in) at h))
  | inr (rest, e) ↦
      ap path_dir (sym (cut_prefix-some (prefix_of dir) file rest e))
      ∙ path_dir-concat dir rest (ground (arith, (rw (e, go_file_in) at h)))
]

-- What the pattern of one directory means for a file
abbrev excluded_in : List String → List String → String → String → Bool
excluded_in selected files file dir =
    if touched selected files dir
    then any (λ n. concat (prefix_of dir) n == file) (other_names selected files dir)
    else go_file_in (prefix_of dir) file

no_other :
    (files selected : List String) (file dir n : String)
    → all go_path files ≡ true
    → contains file selected ≡ true
    → (concat (prefix_of dir) n == file) ≡ true
    → contains n (other_names selected files dir) ≡ true
    → false ≡ true
no_other files selected file dir n paths chosen same in_ =
    sym (
      no_member (λ f. not (contains f selected) && (path_dir f == dir && path_base f == n)) files
        (λ x there. elim (Bool-cases (path_dir x == dir && path_base x == n)) [
          | inr apart ↦ ground (arith, apart)
          | inl both ↦
              let it : x ≡ file =
                split_path x dir n (all_member go_path x files paths there)
                  ((eq_iff (path_dir x) dir).0 (ground (arith, both)))
                  ((eq_iff (path_base x) n).0 (ground (arith, both)))
                ∙ (eq_iff (concat (prefix_of dir) n) file).0 same in
              ground (arith, ap (λ f. contains f selected) it, chosen)
        ]))
    ∙ sym (contains-other_names n dir selected files)
    ∙ in_

selected_stays :
    (files selected : List String) (file dir : String)
    → all go_path files ≡ true
    → contains file files ≡ true
    → contains file selected ≡ true
    → excluded_in selected files file dir ≡ false
unfolding touched
selected_stays files selected file dir paths there chosen =
    elim (Bool-cases (touched selected files dir)) [
      | inl here ↦ rw here (
          no_member (λ n. concat (prefix_of dir) n == file) (other_names selected files dir)
            (λ n in_. elim (Bool-cases (concat (prefix_of dir) n == file)) [
              | inr apart ↦ apart
              | inl same ↦ absurd (cc (no_other files selected file dir n paths chosen same in_))
            ]))
      | inr none_ ↦ rw none_ (elim (Bool-cases (go_file_in (prefix_of dir) file)) [
        | inr outside ↦ outside
        | inl inside ↦ absurd (
            cc (
              none_,
              a_member (λ f. contains f selected && path_dir f == dir) file files there
                  (ground (
                    arith,
                    chosen,
                    (eq_iff (path_dir file) dir).1 (go_file_in-path_dir dir file inside),
                  )),
            ))
      ])
    ]

other_goes :
    (files selected : List String) (file : String)
    → all go_path files ≡ true
    → contains file files ≡ true
    → contains file selected ≡ false
    → excluded_in selected files file (path_dir file) ≡ true
unfolding go_file_in
other_goes files selected file paths there other =
    let own : go_path file ≡ true = all_member go_path file files paths there in
    let whole : file ≡ concat (prefix_of (path_dir file)) (path_base file) =
      (eq_iff file (concat (prefix_of (path_dir file)) (path_base file))).0 (ground (arith, own)) in
    elim (Bool-cases (touched selected files (path_dir file))) [
      | inl here ↦ rw here (
          a_member (λ n. concat (prefix_of (path_dir file)) n == file) (path_base file)
            (other_names selected files (path_dir file))
            (contains-other_names (path_base file) (path_dir file) selected files
              ∙ a_member
                  (λ f.
                    not (contains f selected)
                    && (path_dir f == path_dir file && path_base f == path_base file))
                  file files there
                  (ground (arith, other, eq_refl (path_dir file), eq_refl (path_base file))))
            ((eq_iff (concat (prefix_of (path_dir file)) (path_base file)) file).1 (sym whole)))
      | inr none_ ↦ rw none_ (
          ap (go_file_in (prefix_of (path_dir file))) whole
          ∙ rw (cut_prefix-concat (prefix_of (path_dir file)) (path_base file), go_file_in)
              (ground (arith, own, path_base-no_slash file)))
    ]

-- The two texts that a directory's pattern may have
abbrev pub names_text : (String → String) → String → List String → String
names_text quote prefix names =
    concat "^" (concat (quote prefix) (concat "(?:" (concat (join "|" (map quote names)) ")$")))

abbrev pub whole_text : (String → String) → String → String
whole_text quote prefix = concat "^" (concat (quote prefix) "[^/]+\\.go$")

module _ (quote : String → String) (matches : String → String → Bool) (files selected : List String)
    (file : String) where
  -- The pattern of a directory, where regexp reads the two texts that it may have as they are meant.
  matches-exclusion_of :
      (dir : String)
      → quote "" ≡ ""
      → matches (names_text quote (prefix_of dir) (other_names selected files dir)) file
        ≡ any (λ n. concat (prefix_of dir) n == file) (other_names selected files dir)
      → matches (whole_text quote (prefix_of dir)) file ≡ go_file_in (prefix_of dir) file
      → matches (exclusion_of quote selected files dir) file ≡ excluded_in selected files file dir
  unfolding exclusion_of
  matches-exclusion_of dir empty named whole =
      let prefix : (if dir == "." then "" else quote (concat dir "/")) ≡ quote (prefix_of dir) =
        elim (Bool-cases (dir == ".")) [
          | inl root ↦ rw root (sym empty)
          | inr below ↦ rw below refl
        ] in
      elim (Bool-cases (touched selected files dir)) [
        | inl here ↦ rw here (
            ap
              (λ x.
                matches
                  (concat "^" (
                    concat x (
                      concat "(?:"
                        (concat (join "|" (map quote (other_names selected files dir))) ")$"))))
                  file)
              prefix
            ∙ named)
        | inr none_ ↦
            rw none_ (ap (λ x. matches (concat "^" (concat x "[^/]+\\.go$")) file) prefix ∙ whole)
      ]

  -- Take a file of a module whose paths are each a directory and a name that is more than `.go`. If, for each
  -- directory that has a file which was not selected, regexp reads ^, its quoted prefix and the quoted names of those
  -- files in (?:...|...)$ as one of the prefix and a name, reads ^, its quoted prefix and [^/]+\.go$ as a Go file
  -- right below it, and quotes the empty text as itself, then some text that exclusions returns matches the file
  -- exactly if it was not selected.
  pub any-exclusions :
      quote "" ≡ ""
      → All
          (λ dir.
            matches (names_text quote (prefix_of dir) (other_names selected files dir)) file
            ≡ any (λ n. concat (prefix_of dir) n == file) (other_names selected files dir))
          (sorted_keys (others_of selected files))
      → All
          (λ dir. matches (whole_text quote (prefix_of dir)) file ≡ go_file_in (prefix_of dir) file)
          (sorted_keys (others_of selected files))
      → all go_path files ≡ true
      → contains file files ≡ true
      → any (λ p. matches p file) (exclusions quote files selected) ≡ not (contains file selected)
  unfolding exclusions
  any-exclusions empty named whole paths there =
      any-map (λ p. matches p file) (exclusion_of quote selected files)
        (sorted_keys (others_of selected files))
      ∙ any_ext_on (λ dir. matches (exclusion_of quote selected files dir) file)
          (excluded_in selected files file) (sorted_keys (others_of selected files))
          (All-both
            (λ dir.
              matches (names_text quote (prefix_of dir) (other_names selected files dir)) file
              ≡ any (λ n. concat (prefix_of dir) n == file) (other_names selected files dir))
            (λ dir.
              matches (whole_text quote (prefix_of dir)) file ≡ go_file_in (prefix_of dir) file)
            (λ dir.
              matches (exclusion_of quote selected files dir) file
              ≡ excluded_in selected files file dir)
            (sorted_keys (others_of selected files)) (λ dir p q. matches-exclusion_of dir empty p q)
            named whole)
      ∙ any-sorted_keys (excluded_in selected files file) (others_of selected files)
      ∙ any-others_of (excluded_in selected files file) selected files
      ∙ elim (Bool-cases (contains file selected)) [
        | inl chosen ↦
            no_member
              (λ f. not (contains f selected) && excluded_in selected files file (path_dir f)) files
              (λ x in_.
                ground (arith, selected_stays files selected file (path_dir x) paths there chosen))
            ∙ sym (ap not chosen)
        | inr other ↦
            a_member
              (λ f. not (contains f selected) && excluded_in selected files file (path_dir f)) file
              files there (ground (arith, other, other_goes files selected file paths there other))
            ∙ sym (ap not other)
      ]
