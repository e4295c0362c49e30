-- ===== src/Internet/Route/Count.antt =====
-- How often a route stands in a table, up to the test that internal/pkg/netlink compares routes by.
use sigmo.Common.{
  ℕ, ◌+◌, ◌<◌, ◌≤◌, ◌≡◌, refl, true, List, [], ◌∷◌, ◌++◌, arith, nat_equal, list_equal,
  if◌then◌else◌,
}
use sigmo.Internet.Route.{
  DefaultRoute, same_default_route, default_route_exists, same_default_route_refl,
}

-- 1 if the two routes are the same, else 0.
abbrev pub hits : DefaultRoute → DefaultRoute → ℕ
hits x r = if same_default_route x r then 1 else 0

abbrev pub count : DefaultRoute → List DefaultRoute → ℕ
count x [] = 0
count x (r ∷ rs) = hits x r + count x rs

pub count-append :
    (x : DefaultRoute) (rs ss : List DefaultRoute) → count x (rs ++ ss) ≡ count x rs + count x ss
count-append x [] ss = omega arith
count-append x (r ∷ rs) ss = omega (arith, count-append x rs ss)

pub hits_self : (x : DefaultRoute) → hits x x ≡ 1
hits_self x = rw (same_default_route_refl x) refl

pub hits-le-one : (x r : DefaultRoute) → hits x r ≤ 1
hits-le-one x r = ground arith

pub exists-count :
    (x : DefaultRoute) (rs : List DefaultRoute) → default_route_exists x rs ≡ true → 0 < count x rs
unfolding default_route_exists
exists-count x [] h = cc
exists-count x (r ∷ rs) h = ground (arith, exists-count x rs)
