-- ===== src/Carrier/Mock.antt =====
-- The client against the mock endpoint.
use subscription_reconciler.Base.{String}
use subscription_reconciler.Carrier.{HttpResponse}
use subscription_reconciler.Http.Message.{Response, Content}

-- An answer on the wire, with its content encoded.
abbrev pub wire : (Content → String) → Response → HttpResponse
wire encode r = record { status_code = r.status; body = encode r.content }
