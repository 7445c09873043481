-- ===== src/Chat/Room/Api.antt =====
-- The object `API` of chatRoom.js: the services that the chat room asks.
use cortono.Prelude.{Text, codes, List, [], ◌∷◌}

pub data Service : Type 0 where
  robot weather train express : Service

pub record Endpoint : Type 0 where
  pub url : Text
  pub kind : Text
  pub data_type : Text

abbrev pub endpoint : Service → Endpoint
endpoint robot = record {
  url = codes "http://www.tuling123.com/openapi/api";
  kind = codes "get";
  data_type = codes "json";
}
endpoint weather = record {
  url = codes "http://api.asilu.com/weather/";
  kind = codes "get";
  data_type = codes "jsonp";
}
endpoint train = record {
  url =
      codes
        "http://cors.itxti.net/?www.webxml.com.cn/WebServices/TrainTimeWebService.asmx/getDetailInfoByTrainCode?&UserID=";
  kind = codes "get";
  data_type = [];
}
endpoint express = record {
  url = codes "http://api.asilu.com/express/";
  kind = codes "get";
  data_type = codes "jsonp";
}

-- The options of `$.ajax`. The callback of a success is named by the service; an error does nothing.
pub record Call : Type 0 where
  pub service : Service
  pub url : Text
  pub kind : Text
  pub data_type : Text
  pub params : List (Text × Text)

-- `API.request`
unfoldable pub call_for : Service → List (Text × Text) → Call
call_for service params = record {
  service = service;
  url = (endpoint service).url;
  kind = (endpoint service).kind;
  data_type = (endpoint service).data_type;
  params = params;
}

-- the request of `postMsg`
unfoldable pub ask_robot : Text → Call
unfolding call_for
ask_robot msg = call_for robot (
    (codes "key", codes "a36d98ad2dfa44a487c74fefff41080c")
    ∷ (codes "info", msg)
    ∷ (codes "userid", codes "123456")
    ∷ [])
