-- ===== src/Packets/Properties/Items/Flagged.antt =====
-- packets/properties.go: what Decode does to a struct for an item whose field has a flag beside it.
use mqtt_server.Prelude.{ℕ, ◌≡◌, refl, Bool, true, false, ◌||◌, [], ◌∷◌, if◌then◌else◌}
use mqtt_server.Packets.Properties.{Properties}
use mqtt_server.Packets.Properties.Encode.{when}
use mqtt_server.Packets.Properties.Items
use mqtt_server.Packets.Properties.Items.{Item, set_item, set_items, items_bytes}

pub set_payload_format :
    (c : Bool) (v : ℕ) (q : Properties)
    → set_items (when c (Items.payload_format v ∷ [])) q ≡ record q {
      payload_format = if c then v else q.payload_format;
      payload_format_flag = c || q.payload_format_flag;
    }
unfolding set_item
set_payload_format true v q = refl
set_payload_format false v q = refl

pub set_session_expiry_interval :
    (c : Bool) (v : ℕ) (q : Properties)
    → set_items (when c (Items.session_expiry_interval v ∷ [])) q ≡ record q {
      session_expiry_interval = if c then v else q.session_expiry_interval;
      session_expiry_interval_flag = c || q.session_expiry_interval_flag;
    }
unfolding set_item
set_session_expiry_interval true v q = refl
set_session_expiry_interval false v q = refl

pub set_server_keep_alive :
    (c : Bool) (v : ℕ) (q : Properties)
    → set_items (when c (Items.server_keep_alive v ∷ [])) q ≡ record q {
      server_keep_alive = if c then v else q.server_keep_alive;
      server_keep_alive_flag = c || q.server_keep_alive_flag;
    }
unfolding set_item
set_server_keep_alive true v q = refl
set_server_keep_alive false v q = refl

pub set_request_problem_info :
    (c : Bool) (v : ℕ) (q : Properties)
    → set_items (when c (Items.request_problem_info v ∷ [])) q ≡ record q {
      request_problem_info = if c then v else q.request_problem_info;
      request_problem_info_flag = c || q.request_problem_info_flag;
    }
unfolding set_item
set_request_problem_info true v q = refl
set_request_problem_info false v q = refl

pub set_topic_alias :
    (c : Bool) (v : ℕ) (q : Properties)
    → set_items (when c (Items.topic_alias v ∷ [])) q ≡ record q {
      topic_alias = if c then v else q.topic_alias;
      topic_alias_flag = c || q.topic_alias_flag;
    }
unfolding set_item
set_topic_alias true v q = refl
set_topic_alias false v q = refl

pub set_maximum_qos :
    (c : Bool) (v : ℕ) (q : Properties)
    → set_items (when c (Items.maximum_qos v ∷ [])) q ≡ record q {
      maximum_qos = if c then v else q.maximum_qos;
      maximum_qos_flag = c || q.maximum_qos_flag;
    }
unfolding set_item
set_maximum_qos true v q = refl
set_maximum_qos false v q = refl

pub set_retain_available :
    (c : Bool) (v : ℕ) (q : Properties)
    → set_items (when c (Items.retain_available v ∷ [])) q ≡ record q {
      retain_available = if c then v else q.retain_available;
      retain_available_flag = c || q.retain_available_flag;
    }
unfolding set_item
set_retain_available true v q = refl
set_retain_available false v q = refl

pub set_wildcard_sub_available :
    (c : Bool) (v : ℕ) (q : Properties)
    → set_items (when c (Items.wildcard_sub_available v ∷ [])) q ≡ record q {
      wildcard_sub_available = if c then v else q.wildcard_sub_available;
      wildcard_sub_available_flag = c || q.wildcard_sub_available_flag;
    }
unfolding set_item
set_wildcard_sub_available true v q = refl
set_wildcard_sub_available false v q = refl

pub set_sub_id_available :
    (c : Bool) (v : ℕ) (q : Properties)
    → set_items (when c (Items.sub_id_available v ∷ [])) q ≡ record q {
      sub_id_available = if c then v else q.sub_id_available;
      sub_id_available_flag = c || q.sub_id_available_flag;
    }
unfolding set_item
set_sub_id_available true v q = refl
set_sub_id_available false v q = refl

pub set_shared_sub_available :
    (c : Bool) (v : ℕ) (q : Properties)
    → set_items (when c (Items.shared_sub_available v ∷ [])) q ≡ record q {
      shared_sub_available = if c then v else q.shared_sub_available;
      shared_sub_available_flag = c || q.shared_sub_available_flag;
    }
unfolding set_item
set_shared_sub_available true v q = refl
set_shared_sub_available false v q = refl
