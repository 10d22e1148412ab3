-- ===== src/Startup/Options.antt =====
-- Which arguments utils/ArgsParser.h and main.cpp find.
use sfproxy.Prelude.{
  ℕ, suc, ◌+◌, ◌≡◌, refl, sym, ◌∙◌, subst, true, false, some, List, [], ◌∷◌, ◌++◌, arith, ltb,
  length, length-append, All, Str, codes, str_eq, str_eq_refl,
}
use sfproxy.Startup.{
  index_from, option_exists, get_elem?, argument, option_value, find_char, with_port, settings,
  has_option, main, serve,
}

-- No argument is the option.
abbrev pub Without : Str → List Str → Type 0
Without option = All (λ arg. str_eq arg option ≡ false)

index_after :
    (i : ℕ) (option : Str) (before after : List Str)
    → Without option before
    → index_from i option (before ++ (option ∷ after)) ≡ i + length before
unfolding index_from
index_after i option [] after h = rw (str_eq_refl option) (omega arith)
index_after i option (arg ∷ before) after h =
    rw h.0 (index_after (suc i) option before after h.1 ∙ omega arith)

elem_after :
    (before : List Str) (option value : Str) (after : List Str)
    → get_elem? (before ++ (option ∷ value ∷ after)) (suc (length before)) ≡ some value
unfolding get_elem?
elem_after [] option value after = refl
elem_after (arg ∷ before) option value after = elem_after before option value after

elem_at :
    (k : ℕ) (name option value : Str) (before after : List Str)
    → k ≡ suc (suc (length before))
    → get_elem? (name ∷ (before ++ (option ∷ value ∷ after))) k ≡ some value
unfolding get_elem?
elem_at k name option value before after e =
    subst (λ i. get_elem? (name ∷ (before ++ (option ∷ value ∷ after))) i ≡ some value) (sym e)
      (elem_after before option value after)

argument_after :
    (name option value : Str) (before after : List Str)
    → Without option before
    → argument option (name ∷ (before ++ (option ∷ value ∷ after))) ≡ some value
unfolding argument option_exists get_elem?
argument_after name option value before after h =
    let at : index_from 1 option (before ++ (option ∷ value ∷ after)) ≡ suc (length before) =
      index_after 1 option before (value ∷ after) h ∙ omega arith in
    let inside : ltb (suc (length before) + 1)
          (length (name ∷ (before ++ (option ∷ value ∷ after))))
        ≡ true =
      ground (arith, length-append before (option ∷ value ∷ after)) in
    let found : ltb 0 (suc (length before)) ≡ true = ground arith in
    rw (at, inside, found)
      (elem_at (suc (length before) + 1) name option value before after (omega arith))

option_value_given :
    (name option long_name value default_value : Str) (before after : List Str)
    → Without option before
    → option_value option long_name default_value (name ∷ (before ++ (option ∷ value ∷ after)))
      ≡ value
unfolding option_value
option_value_given name option long_name value default_value before after h =
    rw (argument_after name option value before after h, option_value) refl

with_port-same : (zkhosts : Str) → with_port zkhosts ≡ zkhosts
unfolding with_port
with_port-same zkhosts =
    let never : ltb (find_char b':' zkhosts) 0 ≡ false = ground arith in rw never refl

-- Where the proxy is not asked for help or its version, it serves, and the ZooKeeper hosts are the
-- argument of `-z` as it stands: the default port is not put behind a host that has none.
pub main_zkhosts :
    (name zkhosts : Str) (before after : List Str)
    → let argv = name ∷ (before ++ (codes "-z" ∷ zkhosts ∷ after)) in
      has_option (codes "-h") (codes "--help") argv ≡ false
      → has_option (codes "-v") (codes "--version") argv ≡ false
      → Without (codes "-z") before
      → (main argv ≡ serve (settings argv)) × ((settings argv).zkhosts ≡ zkhosts)
unfolding main settings
main_zkhosts name zkhosts before after help v h = (
  rw (help, v) refl,
  with_port-same _
      ∙ option_value_given name (codes "-z") (codes "--zkhosts") zkhosts (codes "127.0.0.1:2181")
          before after h,
)
