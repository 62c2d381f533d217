-- ===== src/Delivery/Outbound.antt =====
-- The outbound processor: apps/worker/src/processors/outbound.ts.
pub mod Types
pub mod Resume
pub mod Guards
mod Tests
use chatbot_integration.Prelude.{
  ℕ, suc, ◌+◌, String, Bool, true, false, ◌&&◌, not, List, [], ◌∷◌, ◌++◌, Option, none, some, leb,
  ltb, ◌==◌, str_eq, if◌then◌else◌, map, length, get_or,
}
use chatbot_integration.Conversation.{ConversationMode, Language, ai_may_send}
use chatbot_integration.Text.{split_text, codes}
use chatbot_integration.Delivery.RetryKey.{retry_key_for}
use chatbot_integration.Delivery.{
  Message, MessageStatus, queued, sent, failed, canceled, uncertain, SenderType, ai,
  NormalizedMessage, text, media,
}
pub use chatbot_integration.Delivery.Outbound.Types.{
  Conversation, SendOutcome, SendRequest, Adapter, Reads, World, JobEnd, is_settled, is_ai_sender,
  is_text, has_attachments, taken, refused, maybe_delivered, returned, threw, hung,
}

pub to_sendable_parts : NormalizedMessage → (max_length : ℕ) → Option (List NormalizedMessage)
to_sendable_parts (text t) max_length = elim (split_text t max_length) [
  | none ↦ none
  | some chunks ↦ if leb (length chunks) 1 then some (text t ∷ []) else some (map text chunks)
]
to_sendable_parts m max_length = some (m ∷ [])

-- `replyTokenIsFresh`, and the token that it yields.
unfoldable pub fresh_token : (now : ℕ) → Conversation → Option String
fresh_token now c = elim c.reply_token_expires_at [
  | none ↦ none
  | some expires ↦ if ltb now expires then c.reply_token else none
]

abbrev pub same_token : Option String → String → Bool
same_token none t = false
same_token (some held) t = str_eq held t

-- The conditional update: it succeeds only while the token is still the one that was read.
unfoldable pub claim_token : (token : String) → Conversation → Conversation × Option String
claim_token token c =
    if same_token c.reply_token token
    then (record c { reply_token = none; reply_token_expires_at = none }, some token)
    else (c, none)

claim_fresh : Option String → Conversation → Conversation × Option String
unfolding claim_token
claim_fresh none c = (c, none)
claim_fresh (some token) c = if str_eq token "" then (c, none) else claim_token token c

-- `recordUnit`.
pub record_unit : (platform_id : Option String) (sent_parts : ℕ) → Message → Message
record_unit none n m = record m { sent_parts = n }
record_unit (some id) n m = record m {
  sent_parts = n;
  platform_message_id = some id;
  platform_message_ids = m.platform_message_ids ++ id ∷ [];
}

pub record_units : List (ℕ × Option String) → Message → Message
record_units [] m = m
record_units ((unit, id) ∷ units) m = record_units units (record_unit id (unit + 1) m)

-- Where the loop over the parts stops.
pub data SendEnd (S : Type 0) : Type 0 where
  all_sent : Message → S → SendEnd S
  stopped : Message → S → (reason : String) (is_uncertain : Bool) → SendEnd S

module _ {S : Type 0} (adapter : Adapter S) where
  -- One call of the adapter with its checkpoint; `k` is the rest of the loop.
  after_send :
      (whole : Bool) (index : ℕ) → Message → S × SendOutcome → (Message → S → SendEnd S) → SendEnd S
  after_send whole index m (s, refused reason) k = stopped m s reason false
  after_send whole index m (s, maybe_delivered reason) k = stopped m s reason true
  after_send false index m (s, taken id) k = k (record_unit id (index + 1) m) s
  after_send true index m (s, taken none) k = k m s
  after_send true index m (s, taken (some id)) k = k (record m { platform_message_id = some id }) s

  -- The loop. `whole` is `unitsWithinOnePart`; `start` is the number of parts sent before.
  pub send_parts :
      (request : ℕ → NormalizedMessage → SendRequest) (whole : Bool) (start index : ℕ)
      → List NormalizedMessage
      → Message
      → S
      → SendEnd S
  unfolding after_send
  send_parts request whole start index [] m s = all_sent m s
  send_parts request whole start index (part ∷ parts) m s =
      let rest = send_parts request whole start (suc index) parts in
      if not whole && ltb index start
      then rest m s
      else after_send whole index
          (if whole then record_units (adapter.units (request index part) s) m else m)
          (adapter.send (request index part) s) rest

module _ {S : Type 0} (adapter : Adapter S) (reads : Reads) where
  failed_status : (is_uncertain : Bool) → MessageStatus
  failed_status true = uncertain
  failed_status false = if reads.final_attempt then failed else queued

  -- The end of the `try` and its `catch`.
  finish : Conversation → SendEnd S → JobEnd S
  unfolding failed_status
  finish c (all_sent m s) = returned (record {
    message =
        some
          (record m { status = sent; error = none; sent_at = some (get_or m.sent_at reads.now) });
    conversation = some c;
    platform = s;
  })
  finish c (stopped m s reason true) = returned (record {
    message = some (record m { status = uncertain; error = some reason });
    conversation = some c;
    platform = s;
  })
  finish c (stopped m s reason false) =
      threw
        (record {
          message = some (record m { status = failed_status false; error = some reason });
          conversation = some c;
          platform = s;
        })
        reason

  pub request_for :
      Conversation
      → (message_id external_id : String) (claimed : Option String) (content : NormalizedMessage)
        (whole : Bool) (start index : ℕ) (part : NormalizedMessage)
      → SendRequest
  request_for c message_id external_id claimed content whole start index part = record {
    external_id = external_id;
    part = part;
    index = index;
    messaging_window_expires_at = c.messaging_window_expires_at;
    language = if has_attachments content then some reads.customer_language else none;
    reply_token = if index == 0 then claimed else none;
    retry_key = retry_key_for (codes message_id) index;
    start_at = if whole then some start else none;
  }

  send_all :
      Conversation
      → (external_id : String) (claimed : Option String) → (content : NormalizedMessage)
      → Option (List NormalizedMessage)
      → Message
      → S
      → JobEnd S
  unfolding finish
  send_all c external_id claimed content none m s = hung
  send_all c external_id claimed content (some parts) m s =
      let whole = (length parts == 1) && not (is_text content) in
      finish c (
        send_parts adapter (request_for c m.id external_id claimed content whole m.sent_parts) whole
          m.sent_parts 0 parts m s)

  -- The `try`: links first, then the parts.
  attempt : Conversation → (external_id : String) (claimed : Option String) → Message → S → JobEnd S
  unfolding finish send_all
  attempt c external_id claimed m s = elim reads.links_failure [
    | some reason ↦ finish c (stopped m s reason false)
    | none ↦
        let content = reads.with_media_links m.content in
        send_all c external_id claimed content (to_sendable_parts content adapter.max_text_length) m
          s
  ]

  -- From the channel on, for a message that may be sent.
  deliver : Message → Conversation → (external_id : String) → World S → JobEnd S
  unfolding attempt claim_fresh
  deliver m c external_id w = elim reads.channel_failure [
    | some reason ↦ threw w reason
    | none ↦
        let (c', claimed) = claim_fresh (fresh_token reads.now c) c in
        attempt c' external_id claimed m w.platform
  ]

  -- The rows that have to be there.
  with_conversation : Message → Option Conversation → World S → JobEnd S
  unfolding deliver
  with_conversation m none w = returned w
  with_conversation m (some c) w = elim c.external_id [
    | none ↦ returned w
    | some id ↦ deliver m c id w
  ]

  -- An AI reply that a human has overtaken since.
  abbrev pub is_overtaken : Message → Option Conversation → Bool
  is_overtaken m none = false
  is_overtaken m (some c) = is_ai_sender m.sender_type && not (ai_may_send c.mode)

  process_message : Option Message → World S → JobEnd S
  unfolding with_conversation
  process_message none w = returned w
  process_message (some m) w =
      if is_settled m.status
      then returned w
      else if is_overtaken m w.conversation
      then returned (record w {
        message = some (record m {
          status = canceled;
          error = some "A colleague took over before this was delivered";
        });
      })
      else with_conversation m w.conversation w

  pub process_outbound : World S → JobEnd S
  unfolding process_message
  process_outbound w = if reads.is_workable then process_message w.message w else returned w
