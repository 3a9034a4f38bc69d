-- ===== src/CkType/Label.antt =====
-- dcc/sum.go: the names of the types.
use gdcc.Base.{Bytes, codes, ◌++◌, ◌==◌, if◌then◌else◌}
use gdcc.CkType
use gdcc.CkType.{CkType}
use gdcc.Identity.Decimal.{decimal}

-- `CkType.label`
unfoldable pub label : CkType → Bytes
label t =
    if t == CkType.ip
    then codes "IP"
    else if t == CkType.env_from
    then codes "env_From"
    else if t == CkType.from
    then codes "From"
    else if t == CkType.env_to
    then codes "env_To"
    else if t == CkType.message_id
    then codes "Message-ID"
    else if t == CkType.received
    then codes "Received"
    else if t == CkType.body
    then codes "Body"
    else if t == CkType.fuz1
    then codes "Fuz1"
    else if t == CkType.fuz2
    then codes "Fuz2"
    else if t == CkType.sub
    then codes "substitute"
    else decimal t ++ codes "?"
