-- ===== src/Startup/Arguments.antt =====
-- src/options.rs: the options, and how the ports and the runtime are read and the ports are written.
-- The parser of number ranges (crate number_range) is a parameter.
use statico.Prelude.{
  ℕ, Bool, List, [], ◌∷◌, ◌++◌, map, Option, none, some, ◌⊎◌, Bytes, codes, decimal, equal,
  if◌then◌else◌, inl, inr,
}

pub data Runtime : Type 0 where
  tokio tokio_uring monoio glommio smol compio : Runtime

-- `D` is the type of durations; the texts are lists of code points, and the backlog, an `i32`,
-- stands for its 32 bits.
pub record Options (D : Type 0) : Type 0 where
  pub threads : ℕ
  pub ports : List ℕ
  pub bind_all : Bool
  pub address : Option (List ℕ)
  pub status : ℕ
  pub body : Option (List ℕ)
  pub header : List (List ℕ)
  pub http2 : Bool
  pub receive_buffer_size : Option ℕ
  pub send_buffer_size : Option ℕ
  pub listen_backlog : Option ℕ
  pub tcp_nodelay : Bool
  pub uring_entries : ℕ
  pub uring_sqpoll : Option ℕ
  pub meter : Bool
  pub verbose : ℕ
  pub delay : Option D
  pub body_delay : Option D
  pub runtime : Runtime
  pub cert : Option (List ℕ)
  pub key : Option (List ℕ)
  pub mcp_everything : Option (List ℕ)
  pub mcp_sse : Option ℕ

-- `Runtime::from_str`; `none` is the error of an unknown runtime.
unfoldable pub runtime_from_str : Bytes → Option Runtime
runtime_from_str s =
    if equal s (codes "tokio")
    then some tokio
    else (if equal s (codes "tokio-uring")
        then some tokio_uring
        else (if equal s (codes "monoio")
            then some monoio
            else (if equal s (codes "glommio")
                then some glommio
                else (if equal s (codes "smol")
                    then some smol
                    else (if equal s (codes "compio") then some compio else none)))))

pub data PortsError (E : Type 0) : Type 0 where
  invalid_port_range : E → PortsError E
  no_ports : PortsError E

-- `Ports::from_str`
unfoldable pub ports_from_str : {E : Type 0} → (Bytes → E ⊎ List ℕ) → Bytes → PortsError E ⊎ List ℕ
ports_from_str parse s = elim (parse s) [
  | inl e ↦ inl (invalid_port_range e)
  | inr [] ↦ inl no_ports
  | inr (port ∷ ports) ↦ inr (port ∷ ports)
]

-- `join`
abbrev pub join : Bytes → List Bytes → Bytes
join separator [] = []
join separator (s ∷ []) = s
join separator (s ∷ t ∷ texts) = s ++ (separator ++ join separator (t ∷ texts))

-- `Display` of the ports.
unfoldable pub display_ports : List ℕ → Bytes
display_ports ports = join (codes ",") (map decimal ports)
