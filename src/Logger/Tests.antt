-- ===== src/Logger/Tests.antt =====
-- log/logger.cpp for a host and a few messages.
use sfproxy.Prelude.{◌≤◌, ◌≡◌, some, List, [], ◌∷◌, arith, length, All, codes}
use sfproxy.Logger.{Logger}
use sfproxy.Logger.Session.{LogCall, errors, warns, infos, works, logged, all_logged, session, Fits}
use sfproxy.Logger.Delivery.{session-delivers}

abbrev three : List LogCall
three =
    warns (codes "lost") (codes "12:00")
    ∷ works
    ∷ infos (codes "found") (codes "12:01")
    ∷ errors [] []
    ∷ []

three-Fits : All (Fits (codes "proxy-1")) three
three-Fits = (omega arith, (omega arith, (omega arith, (omega arith, tt))))

three_few : length (all_logged (codes "proxy-1") three) ≤ 999999
unfolding all_logged logged
three_few = omega arith

session-delivers_example :
    (l : Logger) × (session 999999 (codes "proxy-1") three
      ≡ some (l, all_logged (codes "proxy-1") three))
session-delivers_example =
    session-delivers 999999 (codes "proxy-1") three (omega arith) three-Fits three_few
