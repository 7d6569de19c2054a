-- ===== src/Orchestrator/Joined.antt =====
-- What `joinNodes` of internal/orchestrator/swarm.go achieves when it reports success.
use docker_swarm_cluster_con.Prelude.{
  ℕ, ◌≡◌, ◌≢◌, String, Bool, true, false, ◌&&◌, ◌||◌, not, List, [], ◌⊎◌, ◌∷◌, Option, contains,
  All,
}
use docker_swarm_cluster_con.Ssh.{RunResult}
use docker_swarm_cluster_con.Orchestrator.{
  CommandError, check_cmd, join_cmd, already_joined, enter_once,
}

-- No node stands twice in the list.
abbrev pub Distinct : List String → Type 0
Distinct [] = Unit
Distinct (n ∷ ns) = All (λ m. m ≢ n) ns × Distinct ns

-- The check shows a node that is active and the cluster's ID.
unfoldable pub shows : String → RunResult → Bool
shows id r = (not r.failed && contains r.stdout "active") && contains r.stdout id

-- A join was accepted, or refused because the node is part of a swarm.
entered : RunResult → Bool
entered r = not r.failed || already_joined r

-- `Settled w n`: what a turn leaves of node n.
module _ {C W : Type 0} (run : String → String → W → RunResult × W) (wait : ℕ → W → Option C × W)
    (Settled : W → String → Type 0) where
  record IsSettling (token addr id : String) : Type 0 where
    pub seen :
        (n : String) (w : W)
        → shows id (run n check_cmd w).0 ≡ true
        → Settled (run n check_cmd w).1 n
    pub joined :
        (n : String) (w : W)
        → entered (run n (join_cmd token addr) w).0 ≡ true
        → Settled (run n (join_cmd token addr) w).1 n
    pub elsewhere :
        (h cmd : String) (w : W) (n : String) → n ≢ h → Settled w n → Settled (run h cmd w).1 n
    pub waiting : (d : ℕ) (w : W) (n : String) → Settled w n → Settled (wait d w).1 n

  module _ (token addr id : String) (docker : IsSettling token addr id) where
    abbrev turn : String → W → RunResult
    turn n w = (run n check_cmd w).0

    abbrev once : String → W → Option CommandError × W
    once n = enter_once run wait n (join_cmd token addr)

-- `Member w n`: node n is in the cluster; `Stray w n`: it is in another swarm. The hypotheses say that
-- Docker's answers are to be trusted, and that a command on one host changes no other host.
module _ {C W : Type 0} (run : String → String → W → RunResult × W) (wait : ℕ → W → Option C × W)
    (Member Stray : W → String → Type 0) where
  pub record IsDocker (token addr id : String) : Type 0 where
    pub seen :
        (n : String) (w : W)
        → shows id (run n check_cmd w).0 ≡ true
        → Member (run n check_cmd w).1 n
    pub joined :
        (n : String) (w : W)
        → (run n (join_cmd token addr) w).0.failed ≡ false
        → Member (run n (join_cmd token addr) w).1 n
    pub refused :
        (n : String) (w : W)
        → already_joined (run n (join_cmd token addr) w).0 ≡ true
        → Member (run n (join_cmd token addr) w).1 n ⊎ Stray (run n (join_cmd token addr) w).1 n
    pub elsewhere :
        (h cmd : String) (w : W) (n : String) → n ≢ h → Member w n → Member (run h cmd w).1 n
    pub elsewhere_stray :
        (h cmd : String) (w : W) (n : String) → n ≢ h → Stray w n → Stray (run h cmd w).1 n
    pub waiting : (d : ℕ) (w : W) (n : String) → Member w n → Member (wait d w).1 n
    pub waiting_stray : (d : ℕ) (w : W) (n : String) → Stray w n → Stray (wait d w).1 n

  abbrev InSwarm : W → String → Type 0
  InSwarm w n = Member w n ⊎ Stray w n
