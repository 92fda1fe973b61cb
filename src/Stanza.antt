-- ===== src/Stanza.antt =====
-- xmpp/stanza.go: messages, presences and IQs, and how a node is read as one; and the stanza errors
-- of xmpp/errors.go. The string types of the source are strings here.
pub mod Tokens
pub mod ErrorLaws
pub mod ErrorWire
pub mod IqElement
pub mod IqLaws
mod Tests
use slixmpp_go.Common.{
  Bool, true, false, ◌||◌, ◌&&◌, Option, none, some, List, [], ◌∷◌, ◌++◌, String, ◌==◌, ◌!=◌,
  string_eq, if◌then◌else◌, map,
}
use slixmpp_go.Common.Int.{ℤ}
use slixmpp_go.Common.Result.{Result, ok, err}
use slixmpp_go.Common.Text.{Unicode, trim_space}
use slixmpp_go.Jid.{bare_jid_string}
use slixmpp_go.Node.{
  Node, name, or_empty, attr_value, attr_value_ns, new_node, new_text_node, set_attr, add_child,
  text, clone, children, is_named,
}

abbrev pub stanza_error_ns : String
stanza_error_ns = "urn:ietf:params:xml:ns:xmpp-stanzas"

abbrev pub xml_ns : String
xml_ns = "http://www.w3.org/XML/1998/namespace"

pub record LangText : Type 0 where
  pub lang : String
  pub value : String

pub record StanzaError : Type 0 where
  pub error_type : String
  pub by : String
  pub condition : String
  pub text : String
  pub application : List Node

pub record Message : Type 0 where
  pub from : String
  pub to : String
  pub id : String
  pub kind : String
  pub lang : String
  pub subject : String
  pub body : String
  pub thread : String
  pub parent : String
  pub subjects : List LangText
  pub bodies : List LangText
  pub extensions : List Node
  pub error : Option StanzaError

pub record Presence : Type 0 where
  pub from : String
  pub to : String
  pub id : String
  pub kind : String
  pub lang : String
  pub show : String
  pub status : String
  pub statuses : List LangText
  pub priority : Option ℤ
  pub extensions : List Node
  pub error : Option StanzaError

pub record Iq : Type 0 where
  pub from : String
  pub to : String
  pub id : String
  pub kind : String
  pub payloads : List Node
  pub error : Option StanzaError

pub data Stanza : Type 0 where
  message : Message → Stanza
  presence : Presence → Stanza
  iq : Iq → Stanza

-- `Message.Reply`
unfoldable pub reply : Message → String → Message
reply m body =
    let kind = if m.kind == "" then "normal" else m.kind in
    let to = if kind == "groupchat" then bare_jid_string m.from else m.from in
    record {
      from = "";
      to = to;
      id = "";
      kind = kind;
      lang = "";
      subject = "";
      body = body;
      thread = m.thread;
      parent = "";
      subjects = [];
      bodies = [];
      extensions = [];
      error = none;
    }

-- `IQ.Payload`
abbrev pub payload : Iq → Option Node
payload i = first_clone i.payloads
  where
    first_clone : List Node → Option Node
    first_clone [] = none
    first_clone (n ∷ _) = some (clone n)

-- `IQ.Result`
unfoldable pub result : Iq → List Node → Iq
result i payloads = record {
  from = i.to;
  to = i.from;
  id = i.id;
  kind = "result";
  payloads = payloads;
  error = none;
}

-- `IQ.ErrorResult`
unfoldable pub error_result : Iq → Option StanzaError → Iq
error_result i e = record {
  from = i.to;
  to = i.from;
  id = i.id;
  kind = "error";
  payloads = map clone i.payloads;
  error = e;
}

-- `findExtension`, which `Message.Extension` and `Presence.Extension` call.
unfoldable pub find_extension : String → String → List Node → Option Node
find_extension ns local [] = none
find_extension ns local (n ∷ nodes) =
    if is_named ns local n then some (clone n) else find_extension ns local nodes

-- `langTextFromNode`
abbrev pub lang_text_from_node : Node → LangText
lang_text_from_node n = record { lang = or_empty (attr_value_ns xml_ns "lang" n); value = text n }

-- A loop over `Children` that changes a value.
abbrev pub each : {A : Type 0} → (Node → A → A) → List Node → A → A
each step [] a = a
each step (c ∷ cs) a = each step cs (step c a)

-- The body of the loop of `stanzaErrorFromNode`.
unfoldable pub error_child : Node → StanzaError → StanzaError
error_child c e =
    if (name c).space == stanza_error_ns
    then (if (name c).local == "text"
        then record e { text = text c }
        else record e { condition = (name c).local })
    else record e { application = e.application ++ (c ∷ []) }

-- `stanzaErrorFromNode`
unfoldable pub stanza_error_from_node : Node → StanzaError
unfolding error_child
stanza_error_from_node n = each error_child (children n) (record {
  error_type = or_empty (attr_value "type" n);
  by = or_empty (attr_value "by" n);
  condition = "";
  text = "";
  application = [];
})

abbrev first_value : LangText → String → String
first_value v s = if v.lang == "" && s == "" then v.value else s

-- The body of the loop of `stanzaFromNode` for each kind of stanza.
unfoldable pub message_child : Node → Message → Message
message_child c m =
    let local = (name c).local in
    let v = lang_text_from_node c in
    if local == "subject"
    then record m { subjects = m.subjects ++ (v ∷ []); subject = first_value v m.subject }
    else if local == "body"
    then record m { bodies = m.bodies ++ (v ∷ []); body = first_value v m.body }
    else if local == "thread"
    then record m { thread = text c; parent = or_empty (attr_value "parent" c) }
    else if local == "error"
    then record m { error = some (stanza_error_from_node c) }
    else record m { extensions = m.extensions ++ (c ∷ []) }

unfoldable pub iq_child : Node → Iq → Iq
iq_child c i =
    if (name c).local == "error"
    then record i { error = some (stanza_error_from_node c) }
    else record i { payloads = i.payloads ++ (c ∷ []) }

-- `strconv.Atoi`, none where it fails.
module _ (U : Unicode) (atoi : String → Option ℤ) where
  abbrev pub read_priority : Option ℤ → Option ℤ → Option ℤ
  read_priority none old = old
  read_priority (some v) old = some v

  unfoldable pub presence_child : Node → Presence → Presence
  presence_child c p =
      let local = (name c).local in
      let v = lang_text_from_node c in
      if local == "show"
      then record p { show = text c }
      else if local == "status"
      then record p { statuses = p.statuses ++ (v ∷ []); status = first_value v p.status }
      else if local == "priority"
      then record p { priority = read_priority (atoi (trim_space U (text c))) p.priority }
      else if local == "error"
      then record p { error = some (stanza_error_from_node c) }
      else record p { extensions = p.extensions ++ (c ∷ []) }

  -- `stanzaFromNode`; none is an unsupported element.
  unfoldable pub stanza_from_node : Node → Option Stanza
  unfolding message_child presence_child iq_child
  stanza_from_node root =
      let attr = λ (n : String). or_empty (attr_value n root) in
      let lang = or_empty (attr_value_ns xml_ns "lang" root) in
      let m : Message = record {
        from = attr "from";
        to = attr "to";
        id = attr "id";
        kind = attr "type";
        lang = lang;
        subject = "";
        body = "";
        thread = "";
        parent = "";
        subjects = [];
        bodies = [];
        extensions = [];
        error = none;
      } in
      let p : Presence = record {
        from = attr "from";
        to = attr "to";
        id = attr "id";
        kind = attr "type";
        lang = lang;
        show = "";
        status = "";
        statuses = [];
        priority = none;
        extensions = [];
        error = none;
      } in
      let i : Iq = record {
        from = attr "from";
        to = attr "to";
        id = attr "id";
        kind = attr "type";
        payloads = [];
        error = none;
      } in
      let kind = (name root).local in
      if kind == "message"
      then some (message (each message_child (children root) m))
      else if kind == "presence"
      then some (presence (each presence_child (children root) p))
      else if kind == "iq"
      then some (iq (each iq_child (children root) i))
      else none
