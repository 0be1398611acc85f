-- ===== src/BitLy/Aliases.antt =====
-- shorteners/bit-ly/alias.go: the known aliases of bit.ly.
use urlhero.Common.{List, [], ◌∷◌, Bool, true, ◌&&◌, ◌≡◌, refl, Bytes, codes, str_lt}

unfoldable aliases : List Bytes
aliases =
    codes "0-60.in"
    ∷ codes "030mag.de"
    ∷ codes "1.azdhs.gov"
    ∷ codes "20ss.nyc"
    ∷ codes "360myte.ch"
    ∷ codes "4sq.com"
    ∷ codes "511t.ac"
    ∷ codes "6.wate.com"
    ∷ codes "7gee.se"
    ∷ codes "8legs.co"
    ∷ codes "9l7gf7x5o9v.xyz"
    ∷ codes "abcn.ws"
    ∷ codes "accntu.re"
    ∷ codes "actf.tv"
    ∷ codes "adobe.ly"
    ∷ codes "adweek.it"
    ∷ codes "amzn.to"
    ∷ codes "apple.co"
    ∷ codes "arfo.sk"
    ∷ codes "audi.us"
    ∷ codes "autism.link"
    ∷ codes "azc.cc"
    ∷ codes "bbc.in"
    ∷ codes "beta.works"
    ∷ codes "binged.it"
    ∷ codes "bitly.is"
    ∷ codes "blizz.ly"
    ∷ codes "bloom.bg"
    ∷ codes "bo.st"
    ∷ codes "bravo.ly"
    ∷ codes "bzfd.it"
    ∷ codes "canva.link"
    ∷ codes "cb.com"
    ∷ codes "chfstps.co"
    ∷ codes "chzb.gr"
    ∷ codes "cnet.co"
    ∷ codes "cnnmon.ie"
    ∷ codes "comca.st"
    ∷ codes "conta.cc"
    ∷ codes "crks.me"
    ∷ codes "d-mk.co"
    ∷ codes "don8blood.com"
    ∷ codes "econ.st"
    ∷ codes "engri.sh"
    ∷ codes "eonli.ne"
    ∷ codes "es.pn"
    ∷ codes "fltsim.me"
    ∷ codes "fxn.ws"
    ∷ codes "got.cr"
    ∷ codes "hrkey.co"
    ∷ codes "hub.am"
    ∷ codes "huff.to"
    ∷ codes "idle-empi.re"
    ∷ codes "ift.tt"
    ∷ codes "imdb.to"
    ∷ codes "kck.st"
    ∷ codes "kore.us"
    ∷ codes "krg.bz"
    ∷ codes "lat.ms"
    ∷ codes "laurc.ro"
    ∷ codes "lemde.fr"
    ∷ codes "lft.to"
    ∷ codes "m.ttmask.com"
    ∷ codes "marsdd.it"
    ∷ codes "mbist.ro"
    ∷ codes "mojo.ly"
    ∷ codes "mttr.io"
    ∷ codes "nydn.us"
    ∷ codes "nyti.ms"
    ∷ codes "oculta.bit.ly"
    ∷ codes "on.fb.me"
    ∷ codes "on.natgeo.com"
    ∷ codes "red.ht"
    ∷ codes "reut.rs"
    ∷ codes "sdut.us"
    ∷ codes "snd.sc"
    ∷ codes "spoti.fi"
    ∷ codes "stanford.io"
    ∷ codes "tcrn.ch"
    ∷ codes "ti.me"
    ∷ codes "usat.ly"
    ∷ codes "wapo.st"
    ∷ codes "wgrd.tech"
    ∷ codes "wttw.me"
    ∷ codes "xar.ph"
    ∷ codes "yhoo.it"
    ∷ []

-- each before the next in the order of strings
unfoldable ascending_from : Bytes → List Bytes → Bool
unfolding str_lt
ascending_from s [] = true
ascending_from s (t ∷ ts) = str_lt s t && ascending_from t ts

-- The aliases are in order and none is there twice.
aliases_ascending : ascending_from [] aliases ≡ true
unfolding aliases ascending_from
aliases_ascending = refl
