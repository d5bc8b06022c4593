-- ===== src/Router/Slm.antt =====
-- internal/router/slm.go: which note the routing model's system prompt ends in, by confidence (this file), and
-- how its answer is read (`Scan`, `Parse`).
pub mod Scan
pub mod Balanced
mod Sound
pub mod First
pub mod Answers
pub mod Returns
pub mod Parse
mod Examples
use nexus_proxy.Shared.{◌≡◌, ◌&&◌, if◌then◌else◌, arith}
use nexus_proxy.Router.Types.{Floats}

-- `slmSystemPrompt`, alone or with one of the three notes behind it.
pub data SystemPrompt : Type 0 where
  plain with_negative_bias with_positive_bias with_fusion_bias : SystemPrompt

module _ (fl : Floats) where
  open fl use {F, ltb, zero, default_floor, default_ceiling}

  -- The knobs of `SLMClient` that the prompts depend on.
  pub record SlmClient : Type 0 where
    pub confidence_floor : F
    pub confidence_ceiling : F

  -- `if floor <= 0 { floor = Default… }`: `<=` is the negation of `>` on the numbers that are set.
  unfoldable pub or_default : F → F → F
  or_default x d = if ltb zero x then x else d

  unfoldable pub system_prompt_for : SlmClient → F → SystemPrompt
  unfolding or_default
  system_prompt_for c confidence =
      let floor = or_default c.confidence_floor default_floor in
      let ceiling = or_default c.confidence_ceiling default_ceiling in
      if ltb confidence floor
      then with_negative_bias
      else (if ltb ceiling confidence then with_positive_bias else plain)

  unfoldable pub system_prompt_for_comparative : SlmClient → F → F → SystemPrompt
  unfolding or_default
  system_prompt_for_comparative c local_conf frontier_conf =
      let floor = or_default c.confidence_floor default_floor in
      let ceiling = or_default c.confidence_ceiling default_ceiling in
      if ltb local_conf floor && ltb frontier_conf floor
      then with_fusion_bias
      else (if ltb local_conf floor
          then with_negative_bias
          else (if ltb ceiling local_conf then with_positive_bias else plain))

  -- The fusion note is given exactly when both confidences lie below the floor; in every other case the
  -- comparative prompt is the prompt for the local confidence alone.
  pub system_prompt_for_comparative_cases :
      (c : SlmClient) (l f : F)
      → let floor = or_default c.confidence_floor default_floor in
        system_prompt_for_comparative c l f
        ≡ (if ltb l floor && ltb f floor then with_fusion_bias else system_prompt_for c l)
  unfolding system_prompt_for_comparative system_prompt_for
  system_prompt_for_comparative_cases c l f = ground arith
