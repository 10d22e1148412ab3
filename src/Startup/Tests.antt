-- ===== src/Startup/Tests.antt =====
-- main.cpp at concrete command lines.
use sfproxy.Prelude.{◌≡◌, refl, false, List, [], ◌∷◌, ◌++◌, Str, codes, str_eq}
use sfproxy.Startup.{has_option, main, settings, serve}
use sfproxy.Startup.Options.{Without, main_zkhosts}

abbrev program : Str
program = codes "frproxy"

abbrev hosted : List Str
hosted = program ∷ ((codes "-st" ∷ []) ++ (codes "-z" ∷ codes "zk" ∷ []))

no_help : has_option (codes "-h") (codes "--help") hosted ≡ false
unfolding has_option str_eq
no_help = refl

no_version : has_option (codes "-v") (codes "--version") hosted ≡ false
unfolding has_option str_eq
no_version = refl

no_hosts : Without (codes "-z") (codes "-st" ∷ [])
unfolding str_eq
no_hosts = (refl, tt)

main_zkhosts_example :
    (main hosted ≡ serve (settings hosted)) × ((settings hosted).zkhosts ≡ codes "zk")
main_zkhosts_example =
    main_zkhosts program (codes "zk") (codes "-st" ∷ []) [] no_help no_version no_hosts

-- Without arguments the proxy serves at its defaults.
defaults : main (program ∷ []) ≡ serve (settings (program ∷ []))
unfolding main settings
defaults = refl
