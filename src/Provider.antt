-- ===== src/Provider.antt =====
-- pkg/provider: the provider interface (provider.go, request.go) as the agents use it. A provider is a
-- value of this record: what it answers and does to the world `W` is its own. The sampling
-- parameters, stop sequences and metadata of a request, which the agents only pass on, are left out,
-- and so is all of a response but its message.
pub mod Retry
pub mod StripThinking
use galdor.Prelude.{String, Bool, List}
use galdor.Schema.{Message, ToolDef}

-- How a call into foreign code ends: with a value, with an error, or in a panic.
pub data Reply (X A : Type 0) : Type 0 where
  replied : A → Reply X A
  refused : X → Reply X A
  crashed : X → Reply X A

-- `unset` is the empty string.
pub data ToolChoice : Type 0 where
  unset auto required : ToolChoice

pub record Request : Type 0 where
  pub model : String
  pub messages : List Message
  pub tools : List ToolDef
  pub tool_choice : ToolChoice

pub record Provider (Ctx W X : Type 0) : Type 0 where
  pub name : String
  pub tool_calling : Bool
  pub generate : Ctx → Request → W → Reply X Message × W
