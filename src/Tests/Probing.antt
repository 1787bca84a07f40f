-- ===== src/Tests/Probing.antt =====
-- The theorem on the health check, applied.
use panopti_dns.Prelude.{ℕ, ◌≡◌, refl, true, [], ◌∷◌, arith}
use panopti_dns.Bytes.{Bytes, codes}
use panopti_dns.Hickory.{ok}
use panopti_dns.Handler.{handle_request}
use panopti_dns.Start.Health.{Probe, healthcheck, exit_of}
use panopti_dns.Start.Health.Probed.{
  probe_request, exit_for, first_of, probe_decision, healthcheck-handle_request,
}
use panopti_dns.Tests.Instances.{SmallName, small, counter}
use panopti_dns.Tests.Serving.{world}
use panopti_dns.Tests.Starting.{started}

abbrev invalid_name : SmallName
invalid_name = record {
  labels = codes "health-check" ∷ codes "panoptidns" ∷ codes "invalid" ∷ [];
  absolute = true;
}

abbrev encoded_as : Bytes
encoded_as = 0 ∷ 7 ∷ []

-- A system whose calls succeed, with the server behind it.
abbrev probing : Probe SmallName
probing = record {
  Socket = ℕ;
  from_ascii = λ s. ok invalid_name;
  to_bytes = λ n t c. ok encoded_as;
  bind = λ a port. ok 3;
  send_to = λ s bytes a port. ok tt;
  recv_from = λ s.
      first_of small (λ m. encoded_as)
        (handle_request small counter world started (probe_request small 7 invalid_name)).0;
}

healthcheck-handle_request_example :
    exit_of (healthcheck probing 53)
    ≡ exit_for (probe_decision small counter world started invalid_name)
healthcheck-handle_request_example =
    healthcheck-handle_request small counter probing 53 (λ m. encoded_as) world started 7
      invalid_name encoded_as 3 refl refl refl refl refl (λ m. omega arith) (omega arith)
