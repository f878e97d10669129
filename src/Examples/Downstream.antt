-- ===== src/Examples/Downstream.antt =====
-- The gateway over HTTP, with a server that answers every request.
use sl_open_bark.Common.{none, ◌≡◌, ◌⊎◌}
use sl_open_bark.Common.Result.{ok, err}
use sl_open_bark.Store.Models.{null, document}
use sl_open_bark.Gateway.Policy.{CallResult, GatewayError, repository, call}
use sl_open_bark.Gateway.Policy.Delivered.{Backed, call-Delivered}
use sl_open_bark.Gateway.Proxy.{Http, over_http}
use sl_open_bark.Examples.Gate.{same, world, request, gateway}

abbrev http : Http
http = record {
  send = λ q. ok (record { status = 200; body = q.url });
  decode = λ body. ok (record { result = document null; error = none });
  print_status = λ n. "";
  print_code = λ n. "";
}

call-Delivered_example :
    ((e : GatewayError) × ((call repository same (over_http http "key" world) request gateway).0
        ≡ err e))
    ⊎ ((x : CallResult) × ((call repository same (over_http http "key" world) request gateway).0
          ≡ ok x)
        × Backed http "key" same world request gateway x.output)
call-Delivered_example = call-Delivered http "key" same world request gateway
