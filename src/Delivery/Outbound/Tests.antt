-- ===== src/Delivery/Outbound/Tests.antt =====
-- Deliveries over a platform that logs what it takes, and the theorems there.
use chatbot_integration.Prelude.{
  Option, zero, suc, Bool, ℕ, ◌≡◌, refl, true, false, none, some, List, [], ◌∷◌, ◌++◌, length,
  arith, ltb, if◌then◌else◌,
}
use chatbot_integration.Conversation.{human, Language, en, ai_may_send}
use chatbot_integration.Conversation as Machine
use chatbot_integration.Text.{codes}
use chatbot_integration.Delivery.{Message, queued, ai, outbound, NormalizedMessage, text}
use chatbot_integration.Delivery.RetryKey.{retry_key_for}
use chatbot_integration.Delivery.Receipts.{Receipt, ReceiptInput, raise, receipt_status}
use chatbot_integration.Delivery.Outbound.{
  Adapter, SendRequest, taken, refused, Reads, World, Conversation, returned, stopped, send_parts,
  record_unit, process_outbound,
}
use chatbot_integration.Delivery.Outbound.Guards.{receipt_swallows_queued}
use chatbot_integration.Delivery.Outbound.Resume.{IsLogged, resume_exactly_once}

-- The platform takes parts until its log is as long as a bound.
abbrev log_until : ℕ → Adapter (List NormalizedMessage)
log_until bound = record {
  max_text_length = 8;
  send = λ r log.
      if ltb (length log) bound
      then (log ++ r.part ∷ [], taken (some "p"))
      else (log, refused "full");
  units = λ r log. [];
}

abbrev reads : Reads
reads = record {
  is_workable = true;
  channel_failure = none;
  links_failure = none;
  with_media_links = λ c. c;
  customer_language = en;
  now = 100;
  final_attempt = false;
}

abbrev reply : Message
reply = record {
  id = "m";
  workspace_id = "w";
  conversation_id = "c";
  direction = outbound;
  sender_type = ai;
  status = queued;
  created_at = 50;
  content = text (codes "One two three");
  sent_parts = 0;
  platform_message_id = none;
  platform_message_ids = [];
  error = none;
  sent_at = none;
}

abbrev conversation : Conversation
conversation = record {
  mode = Machine.ConversationMode.ai;
  reply_token = some "t";
  reply_token_expires_at = some 200;
  messaging_window_expires_at = none;
  external_id = some "u";
}

abbrev world : Message → Conversation → World (List NormalizedMessage)
world m c = record { message = some m; conversation = some c; platform = [] }

abbrev parts : List NormalizedMessage
parts = text (codes "One two") ∷ text (codes "three") ∷ []

abbrev request : ℕ → NormalizedMessage → SendRequest
request index part = record {
  external_id = "u";
  part = part;
  index = index;
  messaging_window_expires_at = none;
  language = none;
  reply_token = none;
  retry_key = retry_key_for (codes "m") index;
  start_at = none;
}

abbrev one_sent : Message
one_sent = record reply {
  sent_parts = 1;
  platform_message_id = some "p";
  platform_message_ids = "p" ∷ [];
}

-- The second part is refused: the first is checkpointed.
stopped_test :
    send_parts (log_until 1) request false 0 0 parts reply []
    ≡ stopped one_sent (text (codes "One two") ∷ []) "full" false
unfolding send_parts record_unit
stopped_test = refl

abbrev overtaken : Conversation
overtaken = record conversation { mode = human }

-- The customer reads an earlier message, at 60, while this one, stored at 50, is still queued.
abbrev read_receipt : ReceiptInput
read_receipt = record {
  workspace_id = "w";
  conversation_id = "c";
  receipt = Receipt.read;
  watermark = 60;
}

receipt_swallows_queued_example :
    ((raise read_receipt reply).status ≡ receipt_status Receipt.read)
    × (process_outbound (log_until 9) reads (world (raise read_receipt reply) conversation)
        ≡ returned (world (raise read_receipt reply) conversation))
receipt_swallows_queued_example =
    receipt_swallows_queued (log_until 9) reads read_receipt reply
      (world (raise read_receipt reply) conversation) refl refl refl

-- The platform takes the first part, and others only once the messaging window is known.
abbrev in_window : ℕ → Option ℕ → Bool
in_window zero window = true
in_window (suc index) none = false
in_window (suc index) (some expires) = true

abbrev windowed : Adapter (List NormalizedMessage)
windowed = record {
  max_text_length = 8;
  send = λ r log.
      if in_window r.index r.messaging_window_expires_at
      then (log ++ r.part ∷ [], taken (some "p"))
      else (log, refused "window");
  units = λ r log. [];
}

windowed-IsLogged : IsLogged windowed (λ log. log)
windowed-IsLogged = record {
  taken_logged = λ r s s' id h. ground arith;
  refused_unlogged = λ r s s' reason h. ground arith;
}

abbrev known : ℕ → NormalizedMessage → SendRequest
known index part = record (request index part) { messaging_window_expires_at = some 500 }

resume_exactly_once_example : parts ≡ [] ++ parts
resume_exactly_once_example =
    resume_exactly_once windowed (λ log. log) windowed-IsLogged request known parts reply one_sent
      (record one_sent { sent_parts = 2; platform_message_ids = "p" ∷ "p" ∷ [] }) []
      (text (codes "One two") ∷ []) parts "window" (λ i p. refl) (λ i p. refl)
      (unfold send_parts record_unit in refl) (unfold send_parts record_unit in refl)
