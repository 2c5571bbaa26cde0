-- ===== src/Examples/Links.antt =====
-- The theorem of Hub/Links at a concrete hub.
use chuk_mcp_training.Base.{◌≡◌, false}
use chuk_mcp_training.Wire.{leased}
use chuk_mcp_training.Hub.State.{ok, cancel, send_to}
use chuk_mcp_training.Hub.Connection.{detach}
use chuk_mcp_training.Hub.Links.{send_to-detach}
use chuk_mcp_training.Examples.HubData.{env, hub}

send_to-detach_example :
    send_to "w" (cancel "busy") (detach env 5 "w" leased hub).1
    ≡ (ok false, (detach env 5 "w" leased hub).1)
send_to-detach_example = send_to-detach env 5 "w" leased (cancel "busy") hub
