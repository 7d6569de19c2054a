-- ===== src/Storage/MicroCeph/Members/Tests.antt =====
-- Runs of the membership operations of internal/storage/microceph.go. The world is the list of the
-- members; a node that was announced but did not join stands there as its address.
use docker_swarm_cluster_con.Prelude.{
  ℕ, ◌≡◌, ◌⊎◌, refl, arith, String, Bool, true, false, List, [], ◌∷◌, ok, ◌==◌, if◌then◌else◌,
  has_prefix, ◌||◌, not, Bool-cases, inl, inr,
}
use docker_swarm_cluster_con.Prelude.Action.{◌>>=◌, return}
use docker_swarm_cluster_con.Config.Nodes.{contains_text}
use docker_swarm_cluster_con.Config.Samples.{cluster}
use docker_swarm_cluster_con.Ssh.{RunResult}
use docker_swarm_cluster_con.IpDetect.Samples.{decoders}
use docker_swarm_cluster_con.Storage.MicroCeph.{status_cmd}
use docker_swarm_cluster_con.Storage.MicroCeph.Members.{bootstrap, generate_join_token, join}
use docker_swarm_cluster_con.Storage.MicroCeph.Members.Joined.{
  IsMicroCeph, Refused, join-Member, bootstrap-Member,
}

-- A bootstrap or a join makes a member, and adding an address makes it announced. Only the status of
-- a node that is no member fails, and the repeated adding of an address.
abbrev Members : Type 0
Members = List String

abbrev enters : String → Bool
enters cmd = has_prefix cmd "microceph cluster join" || has_prefix cmd "microceph cluster bootstrap"

abbrev fails : String → String → Members → Bool
fails host cmd w =
    if cmd == status_cmd
    then not (contains_text host w)
    else if cmd == "microceph cluster add n2"
    then contains_text "n2 announced" w
    else false

abbrev answer : String → String → Members → RunResult
answer host cmd w = record {
  stdout = host;
  stderr = if contains_text host w then "already exists" else "";
  failed = fails host cmd w;
}

abbrev effect : String → String → Members → Members
effect host cmd w =
    if enters cmd
    then host ∷ w
    else if cmd == "microceph cluster add n2"
    then "n2 announced" ∷ w
    else w

abbrev run : String → String → Members → RunResult × Members
run host cmd w = (answer host cmd w, effect host cmd w)

abbrev sleep : ℕ → Members → Members
sleep d w = w

abbrev Member : String → Members → Type 0
Member n w = contains_text n w ≡ true

token_run :
    generate_join_token decoders run sleep cluster "n1" "n2" ("n1" ∷ [])
    ≡ (ok "n1", "n2 announced" ∷ ("n1" ∷ []))
unfolding generate_join_token ◌>>=◌ return contains_text
token_run = refl

join_run : join decoders run sleep cluster "n2" "t" ("n1" ∷ []) ≡ (ok tt, "n2" ∷ ("n1" ∷ []))
unfolding join ◌>>=◌ return contains_text
join_run = refl

bootstrap_run : bootstrap decoders run sleep cluster "n1" [] ≡ (ok tt, "n1" ∷ [])
unfolding bootstrap ◌>>=◌ return contains_text
bootstrap_run = refl

effect-kept : (host cmd n : String) (w : Members) → Member n w → Member n (effect host cmd w)
unfolding contains_text
effect-kept host cmd n w m = elim (Bool-cases (enters cmd)) [
  | inl t ↦ rw t (ground arith)
  | inr f ↦ rw f (elim (Bool-cases (cmd == "microceph cluster add n2")) [
    | inl t ↦ rw t (ground arith)
    | inr g ↦ rw g m
  ])
]

status-Member : (n : String) (w : Members) → fails n status_cmd w ≡ false → Member n w
status-Member n w f = ground arith

cluster-IsMicroCeph : IsMicroCeph run Member
cluster-IsMicroCeph = record {
  status_member = λ n w f. effect-kept n status_cmd n w (status-Member n w f);
  kept = λ {cmd} host n w h m. effect-kept host cmd n w m;
}

join-Member_example :
    Member "n2" ("n2" ∷ ("n1" ∷ []))
    ⊎ Refused decoders run sleep cluster Member "n2" ("n2" ∷ ("n1" ∷ []))
join-Member_example =
    join-Member decoders run sleep cluster Member cluster-IsMicroCeph "n2" "t" ("n1" ∷ [])
      ("n2" ∷ ("n1" ∷ [])) join_run

bootstrap-Member_example : Member "n1" ("n1" ∷ [])
bootstrap-Member_example =
    bootstrap-Member decoders run sleep cluster Member cluster-IsMicroCeph "n1" [] ("n1" ∷ [])
      bootstrap_run
