-- ===== src/Agent/Build/Examples.antt =====
-- packages/core/src/agent.rs, `Agent::new`, with builders that remember whether certificates are
-- checked, under a configuration that accepts bad host names.
use node_reqwest.Prelude.{◌≡◌, refl, true, false, none, Text}
use node_reqwest.Prelude.Outcome.{ok}
use node_reqwest.Agent.{AgentConfig, AgentDefaults, default_config}
use node_reqwest.Agent.Build.{Reqwest, plain_reqwest, new_agent, client_builder}
use node_reqwest.Agent.Build.Checks.{Kept, Built, new_agent-Kept}

abbrev certs_reqwest : Reqwest
certs_reqwest = record plain_reqwest { danger_accept_invalid_hostnames = λ c b. b }

abbrev lax : AgentConfig Text
lax = record default_config { reject_invalid_hostnames = false }

abbrev strict : Kept certs_reqwest (λ b. b ≡ true)
strict = record {
  fresh = refl;
  cookie_store = λ b c p. p;
  timeout = λ b c p. p;
  connect_timeout = λ b c p. p;
  pool_idle_timeout = λ b c p. p;
  redirect = λ b c p. p;
  http1_only = λ b p. p;
  local_address = λ b c p. p;
  add_root_certificate = λ b c p. p;
  no_proxy = λ b p. p;
  proxy = λ b c p. p;
  hickory_dns = λ b c p. p;
}

abbrev defaults : AgentDefaults
defaults = record { headers = none; body = none; max_response_size = none }

made : new_agent certs_reqwest lax ≡ ok (true, defaults)
unfolding new_agent client_builder default_config
made = refl

new_agent-Kept_example : Built certs_reqwest (λ b. b ≡ true) strict lax (true, defaults)
unfolding default_config
new_agent-Kept_example =
    new_agent-Kept certs_reqwest (λ b. b ≡ true) strict lax true defaults (λ off. cc) (λ off b p. p)
      made
