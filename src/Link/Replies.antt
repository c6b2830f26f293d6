-- ===== src/Link/Replies.antt =====
-- The replies of the link layer fit into `char outbuf[128]`.
use emer_gen_z.Base.{◌≤◌, ◌<◌, [], arith, length, length-append, ℤ, pos, negsuc, IsInt}
use emer_gen_z.Text.{c_string}
use emer_gen_z.Text.Decimal.{decimal_int, length-decimal_int}
use emer_gen_z.Text.Format.{sprintf}
use emer_gen_z.Fee.{Core}
use emer_gen_z.Link.{CtlWrite, ack_text, acknowledgment_text}

length-int : (z : ℤ) → IsInt z → length (decimal_int z) ≤ 11
length-int (pos n) h = length-decimal_int (pos n) (omega arith)
length-int (negsuc n) h = length-decimal_int (negsuc n) (omega arith)

-- "Link CTL ACK ...": 31 bytes of the class name, and two ids.
pub ack_text_fits :
    (c : Core)
    → length (c_string c.base_c_class_str) ≤ 31
    → IsInt c.cid0
    → IsInt c.sid0
    → length (ack_text c) < 128
unfolding ack_text sprintf
ack_text_fits c name cid sid = omega (
  arith,
  length-int c.cid0 cid,
  length-int c.sid0 sid,
  length-append {0} (c_string c.base_c_class_str) _,
  length-append {0} (decimal_int c.cid0) _,
  length-append {0} (decimal_int c.sid0) [],
)

pub acknowledgment_text_fits : (m : CtlWrite) → IsInt m.tag → length (acknowledgment_text m) < 128
unfolding acknowledgment_text sprintf
acknowledgment_text_fits m tag =
    omega (arith, length-int m.tag tag, length-append {0} (decimal_int m.tag) _)
