-- ===== src/Delivery/RetryKey/Tests.antt =====
-- The keys of a message's parts (apps/worker/src/processors/outbound.ts).
use chatbot_integration.Prelude.{◌≡◌, refl}
use chatbot_integration.Text.{codes}
use chatbot_integration.Delivery.RetryKey.{retry_key_for, hex_before, hex_digit, padding}

keys :
    (retry_key_for (codes "018f-abcd-9c1e") 0 ≡ codes "018f-abcd-0000")
    × (retry_key_for (codes "018f-abcd-9c1e") 29 ≡ codes "018f-abcd-001d")
unfolding retry_key_for hex_before hex_digit padding
keys = (refl, refl)
