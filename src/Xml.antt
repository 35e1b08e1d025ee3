-- ===== src/Xml.antt =====
-- XML elements as an interface: what the program does with QDom, which is not part of the repository.
-- The program builds a tree from the outside, so a setter returns the changed element.
use netdj.Prelude.{ℕ, Text}

pub record Dom (X : Type 0) : Type 0 where
  -- createElement, createTextNode
  pub element : Text → X
  pub text_node : Text → X
  -- setAttribute(name, value), with a text and with a number
  pub set_attribute : X → Text → Text → X
  pub set_number : X → Text → ℕ → X
  -- appendChild(child)
  pub append_child : X → X → X
  -- QString::setNum, and `<<` on a text stream
  pub num : ℕ → Text
  pub to_text : X → Text

module _ {X : Type 0} (dom : Dom X) where
  -- an element of a name with one text in it
  abbrev pub text_element : Text → Text → X
  text_element name value = dom.append_child (dom.element name) (dom.text_node value)
