-- ===== src/Agents/Simulator/Counts.antt =====
-- How long a simulated conversation is, and what becomes of the scenarios.
use crucible.Base.{
  ℕ, zero, suc, ◌+◌, ◌*◌, ◌≤◌, ◌≡◌, refl, String, List, [], ◌∷◌, none, arith, length, Floats,
}
use crucible.Agents.State.{GraphScenario, EvaluationState, get_or}
use crucible.Agents.Simulator.{
  set_message, feedback, red_team_input, Reply, turn_loop, interaction_log, Simulation, gather,
  connector_error, simulate_environment_node,
}

module _ (lower : String → String) (send : ℕ → List (String × String) → Reply) where
  turn_loop_bounds :
      (turn left : ℕ) (payload : List (String × String))
      → (1 ≤ length (turn_loop lower send turn left payload))
        × (length (turn_loop lower send turn left payload) ≤ 2 * left + 2)
  unfolding turn_loop
  turn_loop_bounds turn zero payload = ground arith
  turn_loop_bounds turn (suc left) payload =
      ground (arith, turn_loop_bounds (suc turn) left (set_message feedback payload))

  -- A simulated conversation has at least two entries, the initial input and an answer or an error,
  -- and at most eleven, whatever the target answers.
  pub interaction_log_bounds :
      (title description : String) (payload : List (String × String))
      → let log = interaction_log lower send title description payload in
        (2 ≤ length log) × (length log ≤ 11)
  unfolding interaction_log
  interaction_log_bounds title description payload =
      let h = turn_loop_bounds 0 4 (set_message (red_team_input title description) payload) in
      (omega (arith, h.0), omega (arith, h.1))

module _ (sim : Simulation) where
  gather-length :
      (n : ℕ) (ss : List GraphScenario)
      → length (gather sim n ss).0 + length (gather sim n ss).1 ≡ length ss
  unfolding gather
  gather-length n [] = refl
  gather-length n (s ∷ ss) = ground (arith, gather-length (suc n) ss)

module _ ⦃fl : Floats⦄ (sim : Simulation) (state : EvaluationState fl.Float) where
  -- With a usable connector, each scenario leads to a trace or to an error of the simulator's
  -- update, and its turn count is the number of the scenarios.
  pub simulate_environment_node-length :
      connector_error sim state.config ≡ none
      → let u = simulate_environment_node sim state in
        (length (get_or u.traces []) + length (get_or u.errors []) ≡ length state.scenarios)
        × (get_or u.turn_count 0 ≡ length state.scenarios)
  unfolding simulate_environment_node
  simulate_environment_node-length h = ground (arith, gather-length sim 0 state.scenarios)
