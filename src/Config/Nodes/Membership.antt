-- ===== src/Config/Nodes/Membership.antt =====
-- Laws of the search in lists of texts, which the program does by a map of what it has seen.
use docker_swarm_cluster_con.Prelude.{
  ◌≡◌, refl, arith, String, Bool, ◌&&◌, ◌||◌, List, [], ◌∷◌, ◌++◌, filter, eq_iff,
}
use docker_swarm_cluster_con.Config.Nodes.{contains_text}

pub contains_text-append :
    (h : String) (xs ys : List String)
    → contains_text h (xs ++ ys) ≡ (contains_text h xs || contains_text h ys)
unfolding contains_text
contains_text-append h [] ys = refl
contains_text-append h (x ∷ xs) ys = ground (arith, contains_text-append h xs ys)

pub contains_text-filter :
    (p : String → Bool) (h : String) (xs : List String)
    → contains_text h (filter p xs) ≡ (contains_text h xs && p h)
unfolding contains_text
contains_text-filter p h [] = refl
contains_text-filter p h (x ∷ xs) = ground (arith, contains_text-filter p h xs, eq_iff x h)
