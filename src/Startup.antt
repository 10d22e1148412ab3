-- ===== src/Startup.antt =====
-- utils/ArgsParser.h and `main` of main.cpp: the command line, and what the proxy is started with.
pub mod Options
pub mod Tests
use sfproxy.Prelude.{
  ℕ, zero, suc, ◌+◌, ◌-◌, ◌*◌, ◌/◌, ◌%◌, ◌^◌, ◌≤◌, ◌<◌, ◌≡◌, refl, sym, ap, ◌∙◌, subst, ◌≢◌, ◌↔◌,
  ◌⊎◌, inl, inr, Bool, true, false, ◌&&◌, ◌||◌, not, Option, none, some, List, [], ◌∷◌, ◌++◌, map,
  arith, ltb, leb, ◌==◌, if◌then◌else◌, ◌>>=◌, ◌>>◌, ltb→lt, lt→ltb, ltb-false, ==_iff, Bool-cases,
  Option-cases, length, length-append, keep_if, length-keep_if-le, keep_if-append, All, All-append,
  All-keep_if, Str, codes, str_eq, str_lt, str_eq_iff, str_eq_refl, ℤ, pos, negsuc, pos_part,
  neg_part, sub_ℕ, ◌+ℤ◌, ltb_ℤ, eq_ℤ,
}
use sfproxy.Decimal.{atol}
use sfproxy.Registry.{to_int32}

-- The first index from `i` on at which the option stands; 0 if it does not.
unfoldable pub index_from : ℕ → Str → List Str → ℕ
index_from i option [] = 0
index_from i option (arg ∷ args) =
    let rest = index_from (suc i) option args in if str_eq arg option then i else rest

-- `option_exists`: `argv[0]` is the program's name.
unfoldable pub option_exists : Str → List Str → ℕ
unfolding index_from
option_exists option [] = 0
option_exists option (name ∷ args) = index_from 1 option args

unfoldable pub get_elem? : List Str → ℕ → Option Str
get_elem? [] i = none
get_elem? (x ∷ xs) zero = some x
get_elem? (x ∷ xs) (suc i) = get_elem? xs i

-- `index && argc > index + 1`, and then `argv[index + 1]`.
unfoldable pub argument : Str → List Str → Option Str
unfolding option_exists get_elem?
argument option argv =
    let index = option_exists option argv in
    if ltb 0 index && ltb (index + 1) (length argv) then get_elem? argv (index + 1) else none

-- `option_value` of texts: the option, else its long name, else the default.
unfoldable pub option_value : Str → Str → Str → List Str → Str
unfolding argument
option_value option long_name default_value argv = elim (argument option argv) [
  | some value ↦ value
  | none ↦ elim (argument long_name argv) [ some value ↦ value | none ↦ default_value ]
]

-- `option_value` of numbers, by `atoi`.
unfoldable pub option_int : Str → Str → ℤ → List Str → ℤ
unfolding argument atol to_int32
option_int option long_name default_value argv = elim (argument option argv) [
  | some value ↦ to_int32 (atol value)
  | none ↦ elim (argument long_name argv) [
    | some value ↦ to_int32 (atol value)
    | none ↦ default_value
  ]
]

-- `zkhosts.find(c)`: the position, or `npos`.
unfoldable pub find_char : ℕ → Str → ℕ
find_char c [] = 2 ^ 64 - 1
find_char c (d ∷ s) =
    let rest = find_char c s in if c == d then 0 else if rest == 2 ^ 64 - 1 then rest else rest + 1

-- `zkhosts.find(':') < 0`, of an unsigned number.
unfoldable pub with_port : Str → Str
unfolding find_char
with_port zkhosts = if ltb (find_char b':' zkhosts) 0 then zkhosts ++ codes ":2181" else zkhosts

pub data ServerType : Type 0 where
  pool_server : ServerType
  nonblocking_server : ServerType
  threaded_server : ServerType

-- The loop over the arguments stops at the first that names a type.
unfoldable pub server_type : List Str → ServerType
server_type [] = nonblocking_server
server_type (arg ∷ args) =
    let rest = server_type args in
    if str_eq arg (codes "-st") || str_eq arg (codes "--threaded")
    then threaded_server
    else if str_eq arg (codes "-sp") || str_eq arg (codes "--threadpool")
    then pool_server
    else if str_eq arg (codes "-sn") || str_eq arg (codes "--nonblocking")
    then nonblocking_server
    else rest

abbrev pub drop_name : List Str → List Str
drop_name [] = []
drop_name (name ∷ args) = args

pub record Settings : Type 0 where
  pub port : ℤ
  pub thread_count : ℤ
  pub zkhosts : Str
  pub enable_log : Bool
  pub log_host : Str
  pub log_port : ℤ
  pub type : ServerType

pub data Action : Type 0 where
  usage : Action
  version : Action
  serve : Settings → Action

-- `option_exists(..) || option_exists(..)`.
unfoldable pub has_option : Str → Str → List Str → Bool
unfolding option_exists
has_option option long_name argv =
    ltb 0 (option_exists option argv) || ltb 0 (option_exists long_name argv)

unfoldable pub settings : List Str → Settings
unfolding option_int option_value with_port has_option server_type
settings argv = record {
  port = option_int (codes "-p") (codes "--port") (pos 9009) argv;
  thread_count = option_int (codes "-t") (codes "--thread_count") (pos 16) argv;
  zkhosts = with_port (option_value (codes "-z") (codes "--zkhosts") (codes "127.0.0.1:2181") argv);
  enable_log = has_option (codes "-l") (codes "--enablelog") argv;
  log_host = option_value (codes "-lh") (codes "--scribehost") (codes "127.0.0.1") argv;
  log_port = option_int (codes "-lp") (codes "--scribeport") (pos 11463) argv;
  type = server_type (drop_name argv);
}

-- `main`, up to the start of the server.
unfoldable pub main : List Str → Action
unfolding has_option settings
main argv =
    if has_option (codes "-h") (codes "--help") argv
    then usage
    else if has_option (codes "-v") (codes "--version") argv
    then version
    else serve (settings argv)
