-- ===== src/Json.antt =====
-- JSON values as package encoding/json decodes them. A number keeps its literal, and an object its
-- members in the order of the text, repeated keys included.
use smolllm_server.Base.{Bool, List, [], ◌∷◌, Text, Dict}

mutual
  pub data Json : Type 0 where
    null : Json
    bool : Bool → Json
    num : Text → Json
    str : Text → Json
    arr : Items → Json
    obj : Members → Json

  pub data Items : Type 0 where
    nil : Items
    cons : Json → Items → Items

  pub data Members : Type 0 where
    end : Members
    member : Text → Json → Members → Members

abbrev pub items : Items → List Json
items nil = []
items (cons v vs) = v ∷ items vs

abbrev pub members : Members → Dict Text Json
members end = []
members (member k v ms) = (k, v) ∷ members ms
