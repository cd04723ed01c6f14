-- ===== src/Errors/Tests.antt =====
-- error_info.hpp: the text of an error with a detail.
use rediscoro.Prelude.{◌≡◌, refl, codes}
use rediscoro.Errors.{ClientErrc, client}
use rediscoro.Errors.Messages.{to_string}

full_queue :
    to_string (record { code = client ClientErrc.queue_full; detail = codes "busy" })
    ≡ codes "rediscoro.client: queue full (busy)"
unfolding to_string
full_queue = refl
